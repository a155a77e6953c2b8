-- ===== src/Database.antt =====
-- src/db: the connection pool and the repository, over the MySQL client library as a parameter.
pub mod Mysql
pub mod ConnectionPool
pub mod Repository
