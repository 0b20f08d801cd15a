-- ===== src/Hub/RolePolicy/Tests.antt =====
-- An admin and a user.
use kergit_server.Ids.{UserId}

abbrev ann : UserId
ann = record { value = "ann" }

abbrev bob : UserId
bob = record { value = "bob" }
