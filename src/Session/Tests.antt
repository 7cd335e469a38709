-- ===== src/Session/Tests.antt =====
-- A broadcast of SessionManager.cpp, run.
use my_testserver.Prelude.{◌≡◌, refl, [], ◌∷◌, codes, eqb, ◌==◌, if◌then◌else◌}
use my_testserver.Net.{Net, connected, disconnecting, send}
use my_testserver.Session.{Sessions, broadcast_to_all}

abbrev three : Sessions
three =
    (codes "ann", record { conn = 1; last_heartbeat = 5 })
    ∷ (codes "bob", record { conn = 2; last_heartbeat = 6 })
    ∷ (codes "eve", record { conn = 3; last_heartbeat = 7 })
    ∷ []

-- The second of the three connections is about to close.
abbrev net : Net
net = record { state = λ conn. if conn == 2 then disconnecting else connected; sent = [] }

broadcast-three : (broadcast_to_all net three (9 ∷ []) (codes "eve")).sent ≡ (1, 9 ∷ []) ∷ []
unfolding broadcast_to_all send eqb
broadcast-three = refl
