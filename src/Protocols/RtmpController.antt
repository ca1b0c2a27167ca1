-- ===== src/Protocols/RtmpController.antt =====
-- server/src/protocols/ozRtmpController.h and .cpp: the sessions of the connections. A connection's
-- number is its address, of which the map keeps the low 32 bits; a session is a number.
use ozonebase.Prelude.{
  ℕ, ◌%◌, ◌^◌, ◌≡◌, List, [], ◌∷◌, Option, none, some, arith, ◌==◌, if◌then◌else◌,
}

pub record RtmpController : Type 0 where
  pub rtmp_sessions : List (ℕ × ℕ)

-- The key that a uint32_t parameter makes of an address.
abbrev pub key_of : ℕ → ℕ
key_of address = address % 2 ^ 32

unfoldable pub find_session : ℕ → List (ℕ × ℕ) → Option ℕ
find_session key [] = none
find_session key (entry ∷ sessions) =
    let later = find_session key sessions in if entry.0 == key then some (entry.1) else later

-- `insert` of the map: a key that is there keeps its session.
unfoldable pub insert_session : ℕ → ℕ → List (ℕ × ℕ) → List (ℕ × ℕ)
insert_session key session [] = (key, session) ∷ []
insert_session key session (entry ∷ sessions) =
    let later = insert_session key session sessions in
    if entry.0 == key then entry ∷ sessions else entry ∷ later

unfoldable pub erase_session : ℕ → List (ℕ × ℕ) → List (ℕ × ℕ)
erase_session key [] = []
erase_session key (entry ∷ sessions) =
    let later = erase_session key sessions in if entry.0 == key then sessions else entry ∷ later

unfoldable pub get_session : RtmpController → ℕ → Option ℕ
get_session c address = find_session (key_of address) c.rtmp_sessions

-- `newSession` with the session that it makes, which it returns in any case.
unfoldable pub new_session : RtmpController → ℕ → ℕ → ℕ × RtmpController
new_session c address session =
    (session, record c { rtmp_sessions = insert_session (key_of address) session c.rtmp_sessions })

unfoldable pub delete_session : RtmpController → ℕ → RtmpController
delete_session c address = record c {
  rtmp_sessions = erase_session (key_of address) c.rtmp_sessions;
}

abbrev pub or_else : Option ℕ → Option ℕ → Option ℕ
or_else none other = other
or_else (some session) other = some session

find-insert :
    (key other session : ℕ) (sessions : List (ℕ × ℕ))
    → find_session other (insert_session key session sessions)
      ≡ or_else (find_session other sessions) (if key == other then some session else none)
unfolding find_session insert_session
find-insert key other session [] = ground arith
find-insert key other session (entry ∷ sessions) =
    ground (arith, find-insert key other session sessions)

-- After a session was made for a connection, that is the session of exactly the addresses with the same
-- low 32 bits, where these had none before; so two connections can get each other's session.
pub get_session-new_session :
    (c : RtmpController) (address other session : ℕ)
    → get_session ((new_session c address session).1) other
      ≡ or_else
          (get_session c other)
          (if key_of address == key_of other then some session else none)
unfolding get_session new_session
get_session-new_session c address other session =
    find-insert (key_of address) (key_of other) session c.rtmp_sessions
