-- ===== src/Errors/Laws.antt =====
-- Laws of the errors: the look-up of a code, the message, and the text of a chain.
use mathlib.Core.Option.{some-injective}
use mathlib.Core.List.{append-nil, append_assoc}
use backend_common_component.Prelude.{
  ℕ, suc, ◌≡◌, refl, sym, ap, ◌∙◌, true, false, ◌==◌, Option, none, some, List, [], ◌∷◌, ◌++◌, map,
  length, ltb, ℤ, arith, eq_ℤ, eq_ℤ-≡, Bool-cases, inl, inr, ◌⊎◌,
}
use backend_common_component.Ini.Reader.{Text}
use backend_common_component.Strings.{c_string, first, zero_free, c_string-free, first-all}
use backend_common_component.Errors.Kinds.{
  ErrorInfo, builtin_error_table, lookup_in_table, lookup_external_error, or_else, lookup_error,
  unknown,
}
use backend_common_component.Errors.Chain.{
  SourceLocation, Frame, Error, alone, with_cause, frame, format_error, cut_off, or_heap,
  frame_message, message, line_of, caused_by_text, format, to_string,
}

or_heap-free : (s : Text) → zero_free s ≡ true → or_heap (s ++ (0 ∷ [])) [] ≡ s
or_heap-free [] h = refl
or_heap-free (c ∷ s) h =
    let test : (c == 0) ≡ false = ground arith in rw test rw (c_string-free s (ground arith)) refl

or_heap-cut : (s heap : Text) → or_heap (cut_off s) heap ≡ heap
or_heap-cut [] heap = refl
or_heap-cut (c ∷ s) heap = refl

-- The message of an error with a context is that context, a text without a zero of any length: the
-- buffer of 64 bytes and the heap give back the same.
pub message-format_error :
    (code : ℤ) (loc : SourceLocation) (text : Text)
    → zero_free text ≡ true
    → message (format_error code loc text) ≡ text
unfolding message format_error frame frame_message
message-format_error code loc text h = elim (Bool-cases (ltb (length text) 64)) [
  | inl short ↦ rw short rw (first-all 63 text (ground arith)) (or_heap-free text h)
  | inr long ↦ rw long (
      or_heap-cut (first 63 text ++ (0 ∷ [])) (c_string (first (length text) text ++ (0 ∷ [])))
      ∙ ap (λ s. c_string (s ++ (0 ∷ []))) (first-all (length text) text (omega arith))
      ∙ c_string-free text h)
]

-- The frames of a chain, the error itself first.
abbrev pub frames : Error → List Frame
frames (alone f) = f ∷ []
frames (with_cause f e) = f ∷ frames e

abbrev pub causes : Error → List Frame
causes (alone f) = []
causes (with_cause f e) = frames e

abbrev pub flatten : List Text → Text
flatten [] = []
flatten (s ∷ ss) = s ++ flatten ss

module _ (registered : Option (ℤ → Option ErrorInfo)) (to_text : ℕ → Text) where
  -- Every frame on a line of its own, behind the words for a cause.
  abbrev pub cause_line : Frame → Text
  cause_line f = caused_by_text ++ line_of registered to_text f

  format-lines :
      (n : ℕ) (e : Error)
      → format registered to_text (suc n) e ≡ flatten (map cause_line (frames e))
  unfolding format
  format-lines n (alone f) = sym (append-nil (cause_line f))
  format-lines n (with_cause f e) = rw (format-lines (suc n) e) (
      sym (
        append_assoc caused_by_text (line_of registered to_text f)
          (flatten (map cause_line (frames e)))))

  -- The text of an error is its own line and, behind it, a line for each cause of the chain, in order.
  pub to_string-lines :
      (e : Error)
      → to_string registered to_text e
        ≡ line_of registered to_text (frame e) ++ flatten (map cause_line (causes e))
  unfolding to_string format frame
  to_string-lines (alone f) = sym (append-nil (line_of registered to_text f))
  to_string-lines (with_cause f e) = rw (format-lines 0 e) refl

lookup_in_table-code :
    (table : List ErrorInfo) (code : ℤ) (info : ErrorInfo)
    → lookup_in_table table code ≡ some info
    → info.code ≡ code
unfolding lookup_in_table
lookup_in_table-code [] code info h = cc
lookup_in_table-code (i ∷ table) code info h = elim (Bool-cases (eq_ℤ i.code code)) [
  | inl same ↦
      let found : some i ≡ some info = rw same at h in
      sym (ap (λ x. x.code) (some-injective i info found)) ∙ eq_ℤ-≡ i.code code same
  | inr differ ↦ lookup_in_table-code table code info (rw differ at h)
]

-- Where the information of a code comes from, the three sources in their order.
abbrev pub From : Option (ℤ → Option ErrorInfo) → ℤ → ErrorInfo → Type 0
From registered code info =
    (lookup_in_table builtin_error_table code ≡ some info) × (info.code ≡ code)
    ⊎ (lookup_in_table builtin_error_table code ≡ none)
      × (lookup_external_error registered code ≡ some info)
    ⊎ (lookup_in_table builtin_error_table code ≡ none)
      × (lookup_external_error registered code ≡ none)
      × (info ≡ unknown)

-- Every code has an information: the entry of the built-in table with that code; or else, where the
-- table has none, what the registered function gives; or else the entry of the unknown error.
lookup_error-From :
    (registered : Option (ℤ → Option ErrorInfo)) (code : ℤ)
    → (info : ErrorInfo) × (lookup_error registered code ≡ some info) × From registered code info
unfolding lookup_error
lookup_error-From registered code =
    go (lookup_in_table builtin_error_table code) (lookup_external_error registered code) refl refl
  where
    go :
        (o e : Option ErrorInfo)
        → lookup_in_table builtin_error_table code ≡ o
        → lookup_external_error registered code ≡ e
        → (info : ErrorInfo) × (or_else o (or_else e (some unknown)) ≡ some info)
          × From registered code info
    go (some i) e p q = (i, refl, inl (p, lookup_in_table-code builtin_error_table code i p))
    go none (some i) p q = (i, refl, inr (inl (p, q)))
    go none none p q = (unknown, refl, inr (inr (p, q, refl)))
