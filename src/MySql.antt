-- ===== src/MySql.antt =====
-- The connection to MySQL: database-connection-pool/src/MySQLConnection.cpp and
-- MySQLResultSet.cpp.
pub mod Connection
pub mod Pointers
pub mod ResultSet
