-- ===== src/Tests/Open.antt =====
-- A table that is opened for the first time.
use fastmem_mariadb.Prelude.{true, some}
use fastmem_mariadb.Handler.Tables.{OpenGrants}
use fastmem_mariadb.Tests.Registry.{grants}

abbrev allowed : OpenGrants
allowed = record { named = some 2; keydefs = true; made = grants; handle = some 3 }
