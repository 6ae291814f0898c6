-- ===== src/Cdc/Address.antt =====
-- address.cpp: the addresses, and the structures the kernel reads. A `sun_path` has 108 bytes, and
-- stands behind 2 bytes; `inet_pton` is a parameter.
use backend_common_component.Prelude.{
  ℕ, zero, suc, ◌+◌, ◌≤◌, ◌≡◌, refl, true, false, Option, none, some, List, [], ◌∷◌, ◌++◌, ◌==◌,
  arith, length, if◌then◌else◌,
}
use backend_common_component.Ini.Reader.{Text}
use backend_common_component.Strings.{c_string, zero_free, first, length-first, first-all}
use backend_common_component.Cdc.Communicator.{Domain, inet, unix, other_domain}

pub data Address : Type 0 where
  unix_address : (path : Text) → Address
  inet_address : (ip : Text) (port : ℕ) → Address

-- With the length that `getSockAddr` writes to `addr_len`.
pub data SockAddr : Type 0 where
  sockaddr_un : (sun_path : List ℕ) (addr_len : ℕ) → SockAddr
  sockaddr_in : (sin_addr sin_port : ℕ) → SockAddr

-- `strncpy`, as it is documented: up to the zero that ends the source, then zeros.
abbrev pub strncpy : ℕ → Text → List ℕ
strncpy zero s = []
strncpy (suc n) [] = 0 ∷ strncpy n []
strncpy (suc n) (c ∷ s) = if c == 0 then 0 ∷ strncpy n [] else c ∷ strncpy n s

unfoldable pub sun_path : Text → List ℕ
sun_path path = strncpy 107 path ++ (0 ∷ [])

unfoldable pub unix_sock_addr : Text → SockAddr
unfolding sun_path
unix_sock_addr path = sockaddr_un (sun_path path) (2 + length (c_string (sun_path path)) + 1)

-- Of `InetAddress`, after the conversion by `inet_pton`.
abbrev pub inet_sock_addr : Option ℕ → ℕ → Option SockAddr
inet_sock_addr none port = none
inet_sock_addr (some a) port = some (sockaddr_in a port)

unfoldable pub get_sock_addr : (Text → Option ℕ) → Address → Option SockAddr
unfolding unix_sock_addr
get_sock_addr inet_pton (unix_address path) = some (unix_sock_addr path)
get_sock_addr inet_pton (inet_address ip port) = inet_sock_addr (inet_pton ip) port

-- `Address::create`.
unfoldable pub create_address : Domain → Text → ℕ → Option Address
create_address unix param1 port = some (unix_address param1)
create_address inet param1 port = some (inet_address param1 port)
create_address (other_domain _) param1 port = none

-- The way back, as in `getLocalAddress`, with `inet_ntop`. A structure of another family than the
-- domain's, which the kernel does not give, is not read.
unfoldable pub address_of : (ℕ → Text) → Domain → SockAddr → Option Address
address_of inet_ntop unix (sockaddr_un path _) = some (unix_address (c_string path))
address_of inet_ntop inet (sockaddr_in a port) = some (inet_address (inet_ntop a) port)
address_of inet_ntop _ _ = none

copied-empty : (n : ℕ) → c_string (strncpy n [] ++ (0 ∷ [])) ≡ []
copied-empty zero = refl
copied-empty (suc n) = refl

copied : (n : ℕ) (s : Text) → zero_free s ≡ true → c_string (strncpy n s ++ (0 ∷ [])) ≡ first n s
copied zero s h = refl
copied (suc n) [] h = refl
copied (suc n) (c ∷ s) h =
    let test : (c == 0) ≡ false = ground arith in
    rw test rw test rw (copied n s (ground arith)) refl

-- The length that the kernel is given.
abbrev pub sock_len : SockAddr → ℕ
sock_len (sockaddr_un _ addr_len) = addr_len
sock_len (sockaddr_in _ _) = 16

-- The address of a Unix socket, read back from the structure made for it, is the address when the path
-- has no zero and at most 107 bytes; a longer path is cut there. The structure has at most 110 bytes.
pub unix_sock_addr-read :
    (inet_ntop : ℕ → Text) (path : Text)
    → zero_free path ≡ true
    → (address_of inet_ntop unix (unix_sock_addr path) ≡ some (unix_address (first 107 path)))
      × (length path ≤ 107 → first 107 path ≡ path)
      × (sock_len (unix_sock_addr path) ≤ 110)
unfolding unix_sock_addr address_of sun_path
unix_sock_addr-read inet_ntop path h =
    let back = copied 107 path h in
    (rw back refl, first-all 107 path, rw back (omega (arith, length-first 107 path)))
