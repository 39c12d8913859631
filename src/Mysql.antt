-- ===== src/Mysql.antt =====
-- mysql/ and mapper/: the table of users. The MySQL client library is not modelled: what it returns is
-- an argument.
pub mod Result
pub mod Db
pub mod Users
