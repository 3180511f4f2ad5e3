-- ===== src/Types/Tests.antt =====
-- The theorems about types.ixx at concrete inputs.
use zero_trust_secure_sessio.Common.{seconds}
use zero_trust_secure_sessio.Types.{viewer, Session, new_session}

abbrev short_session : Session
short_session = new_session "s1" "kim" viewer "10.0.0.1" "ssh" (seconds 90) 0
