-- ===== src/Session/Invariant.antt =====
-- The six maps of the manager as one relation between connections, sessions and users.
use kergit_server.Base.{
  ℕ, ◌%◌, ◌^◌, ◌≤◌, ◌<◌, ◌≡◌, Bool, true, false, Option, none, some, arith, ite, dec_eq, Key,
  is_some, nat_key,
}
use kergit_server.Base.Map.{
  Set, size, find, IsMap, find-empty, IsMap-empty, size-empty, is_empty-empty,
}
use kergit_server.Base.Nested.{row, lookup, NoEmpty}
use kergit_server.Ids.{GlobalConnId, UserId, global_conn_id_key, user_id_key}
use kergit_server.Session.{SessionId, SessionInfo, SessionManager, init, user_has_active_sessions}

-- The option holds this value.
abbrev pub holds : {K : Type 0} ⦃key : Key K⦄ → K → Option K → Bool
holds k none = false
holds k (some j) = ite (dec_eq j k) true false

pub record IsValid (m : SessionManager) : Type 0 where
  -- A connection has a user exactly if it has a session,
  pub paired :
      (c : GlobalConnId)
      → is_some (find c m.conn_to_session_) ≡ is_some (find c m.conn_to_session_id_)
  -- and the session belongs to that user.
  pub owned :
      (c : GlobalConnId) (s : SessionId)
      → find c m.conn_to_session_id_ ≡ some s
      → find s m.session_id_to_user_ ≡ find c m.conn_to_session_
  -- The connections of a session are those that are attached to it.
  pub conns :
      (s : SessionId) (c : GlobalConnId)
      → is_some (lookup s c m.session_id_to_conns_) ≡ holds s (find c m.conn_to_session_id_)
  -- The sessions of a user are those that belong to it.
  pub ids :
      (u : UserId) (s : SessionId)
      → is_some (lookup u s m.user_to_session_ids_) ≡ holds u (find s m.session_id_to_user_)
  -- A session that belongs to a user has a row of connections, and the other way round.
  pub live :
      (s : SessionId)
      → is_some (find s m.session_id_to_conns_) ≡ is_some (find s m.session_id_to_user_)
  pub conns_inhabited : NoEmpty m.session_id_to_conns_
  pub ids_inhabited : NoEmpty m.user_to_session_ids_
  -- A user has state exactly if it has a session.
  pub known : (u : UserId) → is_some (find u m.sessions_) ≡ is_some (find u m.user_to_session_ids_)
  -- No session has an id above the last one minted.
  pub minted :
      (s : SessionId) (u : UserId) → find s m.session_id_to_user_ ≡ some u → s ≤ m.next_session_id_
  -- `active_users` counts the users with state.
  pub distinct : IsMap m.sessions_
  pub counted : m.active_users ≡ size m.sessions_ % 2 ^ 64

-- Below its limit a user has fewer sessions than it, or as many.
pub record WithinLimit (m : SessionManager) : Type 0 where
  pub rows : (u : UserId) → IsMap (row (find u m.user_to_session_ids_))
  pub within :
      (u : UserId)
      → 0 < m.max_sessions_per_user_
      → size (row (find u m.user_to_session_ids_)) ≤ m.max_sessions_per_user_

pub init-IsValid : (limit : ℕ) → IsValid (init limit)
unfolding init
init-IsValid limit = record {
  paired = λ c. ground (arith, find-empty {V = UserId} c, find-empty {V = SessionId} c);
  owned = λ c s h. absurd (ground (arith, find-empty {V = SessionId} c));
  conns = λ s c. ground (
    arith,
    find-empty {V = Set GlobalConnId} s,
    find-empty {V = SessionId} c,
    find-empty {V = Unit {0}} c,
  );
  ids = λ u s. ground (
    arith,
    find-empty {V = Set SessionId} u,
    find-empty {V = UserId} s,
    find-empty {V = Unit {0}} s,
  );
  live = λ s. ground (arith, find-empty {V = Set GlobalConnId} s, find-empty {V = UserId} s);
  conns_inhabited = record {
    inhabited = λ s r h. absurd (ground (arith, find-empty {V = Set GlobalConnId} s));
  };
  ids_inhabited = record {
    inhabited = λ u r h. absurd (ground (arith, find-empty {V = Set SessionId} u));
  };
  known = λ u. ground (arith, find-empty {V = SessionInfo} u, find-empty {V = Set SessionId} u);
  minted = λ s u h. absurd (ground (arith, find-empty {V = UserId} s));
  distinct = IsMap-empty;
  counted = ground (arith, size-empty UserId SessionInfo);
}

pub init-WithinLimit : (limit : ℕ) → WithinLimit (init limit)
unfolding init
init-WithinLimit limit = record {
  rows = λ u. rw (find-empty {V = Set SessionId} u) IsMap-empty;
  within = λ u h. ground (arith, find-empty {V = Set SessionId} u, size-empty SessionId (Unit {0}));
}

-- A user is active exactly if it has a row of sessions.
pub active-row :
    (m : SessionManager) (u : UserId)
    → IsValid m
    → user_has_active_sessions u m ≡ is_some (find u m.user_to_session_ids_)
active-row m u v = ground (
  arith,
  is_empty-empty SessionId (Unit {0}),
  v.ids_inhabited.inhabited u (row (find u m.user_to_session_ids_)),
)
