-- ===== src/Session/Attach.antt =====
-- attachConnection: what it does, and that it keeps the invariant.
use kergit_server.Base.{
  ◌+◌, ◌^◌, ◌≤◌, ◌<◌, ◌≡◌, ◌↔◌, inl, inr, none, some, arith, ite, dec_eq, nat_key, inc64,
  Option-cases,
}
use kergit_server.Base.Map.{
  size, find, insert, find-put, find-emplace, find-empty, nonempty-put, size-put, IsMap-put,
  IsMap-emplace, size-emplace, size-empty,
}
use kergit_server.Base.Nested.{row, lookup-put, NoEmpty-put}
use kergit_server.Ids.{GlobalConnId, UserId, global_conn_id_key, user_id_key}
use kergit_server.Session.{
  SessionId, SessionManager, new_info, attached, session_limit_exceeded, open_session,
  attach_connection,
}
use kergit_server.Session.Invariant.{active-row, IsValid, WithinLimit}

module _ (m : SessionManager) (v : IsValid m) (conn : GlobalConnId) (user : UserId)
    (id : SessionId) where
  -- The id is above all that were minted.
  unminted : m.next_session_id_ < id → find id m.session_id_to_user_ ≡ none
  unminted fresh = elim (Option-cases (find id m.session_id_to_user_)) [
    | inl e ↦ e
    | inr (u, e) ↦ absurd (omega (arith, v.minted id u e))
  ]

  open_session-IsValid :
      m.next_session_id_ < id
      → find conn m.conn_to_session_id_ ≡ none
      → IsValid (open_session id conn user m)
  unfolding open_session
  open_session-IsValid fresh absent =
      let no_owner = unminted fresh in
      let conns = row (find id m.session_id_to_conns_) in
      let ids = row (find user m.user_to_session_ids_) in
      record {
        paired = λ c. ground (
          arith,
          v.paired c,
          find-put conn c user m.conn_to_session_,
          find-put conn c id m.conn_to_session_id_,
        );
        owned = λ c s h. ground (
          arith,
          v.owned c s,
          no_owner,
          v.paired c,
          find-put conn c user m.conn_to_session_,
          find-put conn c id m.conn_to_session_id_,
          find-put id s user m.session_id_to_user_,
        );
        conns = λ s c. ground (
          arith,
          v.conns s c,
          v.live id,
          no_owner,
          find-empty {V = Unit {0}} c,
          lookup-put id m.session_id_to_conns_ (insert conn conns) s c,
          find-put conn c tt conns,
          find-put conn c id m.conn_to_session_id_,
        );
        ids = λ u s. ground (
          arith,
          v.ids u s,
          no_owner,
          lookup-put user m.user_to_session_ids_ (insert id ids) u s,
          find-put id s tt ids,
          find-put id s user m.session_id_to_user_,
        );
        live = λ s. ground (
          arith,
          v.live s,
          find-put id s user m.session_id_to_user_,
          find-put id s (insert conn conns) m.session_id_to_conns_,
        );
        conns_inhabited =
            NoEmpty-put id m.session_id_to_conns_ (insert conn conns) (nonempty-put conn tt conns)
              v.conns_inhabited;
        ids_inhabited =
            NoEmpty-put user m.user_to_session_ids_ (insert id ids) (nonempty-put id tt ids)
              v.ids_inhabited;
        known = λ u. ground (
          arith,
          v.known u,
          find-emplace user u new_info m.sessions_,
          find-put user u (insert id ids) m.user_to_session_ids_,
        );
        minted = λ s u h. ground (arith, v.minted s u, find-put id s user m.session_id_to_user_);
        distinct = IsMap-emplace user new_info m.sessions_ v.distinct;
        counted = ground (
          arith,
          active-row m user v,
          v.known user,
          v.counted,
          size-emplace user new_info m.sessions_,
        );
      }

module _ (m : SessionManager) (v : IsValid m) (conn : GlobalConnId) (user : UserId) where
  -- `attachConnection` keeps the maps in agreement, until the counter of ids wraps.
  pub attach_connection-IsValid :
      m.next_session_id_ + 1 < 2 ^ 64 → IsValid (attach_connection conn user m).0
  unfolding attach_connection
  attach_connection-IsValid room =
      ground (arith, v, open_session-IsValid m v conn user (inc64 m.next_session_id_))

  -- On valid maps and before the counter of ids wraps, a connection with no session that is
  -- accepted gets the id of a session that belonged to nobody. It is then attached to that session
  -- and to the user, and every other connection keeps its user and its session.
  pub attach_fresh :
      (id : SessionId)
      → m.next_session_id_ + 1 < 2 ^ 64
      → find conn m.conn_to_session_id_ ≡ none
      → (attach_connection conn user m).1 ≡ attached id
      → (find id m.session_id_to_user_ ≡ none)
        × ((c : GlobalConnId)
            → (find c (attach_connection conn user m).0.conn_to_session_
                ≡ ite (dec_eq conn c) (some user) (find c m.conn_to_session_))
              × (find c (attach_connection conn user m).0.conn_to_session_id_
                  ≡ ite (dec_eq conn c) (some id) (find c m.conn_to_session_id_)))
  unfolding attach_connection
  attach_fresh id room absent done = (
    ground (arith, unminted m v conn user (inc64 m.next_session_id_)),
    λ c. (
      ground (arith, find-put conn c user m.conn_to_session_),
      ground (arith, find-put conn c (inc64 m.next_session_id_) m.conn_to_session_id_),
    ),
  )

  -- An attach is refused, and then changes nothing, exactly for a connection with no session whose
  -- user already has as many sessions as the limit, which 0 switches off.
  pub attach_refused :
      (((attach_connection conn user m).1 ≡ session_limit_exceeded) ↔ (
        (find conn m.conn_to_session_id_ ≡ none)
        × (0 < m.max_sessions_per_user_)
        × (m.max_sessions_per_user_ ≤ size (row (find user m.user_to_session_ids_)))))
      × ((attach_connection conn user m).1 ≡ session_limit_exceeded
          → (attach_connection conn user m).0 ≡ m)
  unfolding attach_connection
  attach_refused = (ground (arith, size-empty SessionId (Unit {0})), ground arith)

  -- No attach takes a user past the limit.
  pub attach_connection-WithinLimit : WithinLimit m → WithinLimit (attach_connection conn user m).0
  unfolding attach_connection
  attach_connection-WithinLimit w =
      let id = inc64 m.next_session_id_ in
      let ids = row (find user m.user_to_session_ids_) in
      record {
        rows = λ u. ground (
          arith,
          w.rows u,
          w.rows user,
          find-put user u (insert id ids) m.user_to_session_ids_,
          IsMap-put id tt ids (w.rows user),
        );
        within = λ u h. ground (
          arith,
          w.within u,
          find-put user u (insert id ids) m.user_to_session_ids_,
          size-put id tt ids,
          size-empty SessionId (Unit {0}),
        );
      }
