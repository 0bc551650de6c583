-- ===== src/Driver/Identifiers/Tests.antt =====
-- Quoted names of driver.rs' own tests, and the theorem on one of them.
use adbc_driver_monetdb.Prelude.{◌≡◌, refl, some, codes, ok}
use adbc_driver_monetdb.Driver.Identifiers.{
  read_name, quote_identifier, qualified_name, qualified_name-read,
}

quotes_a_schema : qualified_name (some (codes "a\"b")) (codes "c") ≡ ok (codes "\"a\"\"b\".\"c\"")
unfolding qualified_name quote_identifier
quotes_a_schema = refl

qualified_name-read_example :
    read_name (codes "\"a\"\"b\".\"c\"") ≡ some (some (codes "a\"b"), codes "c")
qualified_name-read_example =
    qualified_name-read (some (codes "a\"b")) (codes "c") (codes "\"a\"\"b\".\"c\"") quotes_a_schema
