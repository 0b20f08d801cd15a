-- ===== src/Session/Remove.antt =====
-- removeConnection keeps the invariant, and what it does.
use kergit_server.Base.{
  ◌≡◌, refl, ◌∙◌, inl, inr, true, false, not, none, some, arith, ite, dec_eq, is_some, nat_key,
  if◌then◌else◌, Bool-cases, Option-cases,
}
use kergit_server.Base.Map.{
  Set, empty, is_empty, find, put, erase, IsMap, find-put, find-erase, find-empty, size-erase,
  IsMap-erase, IsMap-empty, find_of_is_empty, is_empty-empty, size-empty,
}
use kergit_server.Base.Nested.{
  row, lookup, drop, lookup-put, lookup-erase, lookup-drop, NoEmpty-put, NoEmpty-erase,
  NoEmpty-drop,
}
use kergit_server.Ids.{GlobalConnId, UserId, global_conn_id_key, user_id_key}
use kergit_server.Session.{
  SessionId, SessionManager, user_has_active_sessions, forget_idle_user, remove_connection,
}
use kergit_server.Session.Invariant.{IsValid, WithinLimit, holds}

module _ (m : SessionManager) (v : IsValid m) (conn : GlobalConnId) (user : UserId) (id : SessionId)
    (has_user : find conn m.conn_to_session_ ≡ some user)
    (has_id : find conn m.conn_to_session_id_ ≡ some id) where
  abbrev conns : Set GlobalConnId
  conns = row (find id m.session_id_to_conns_)

  abbrev ids : Set SessionId
  ids = row (find user m.user_to_session_ids_)

  owner : find id m.session_id_to_user_ ≡ some user
  owner = v.owned conn id has_id ∙ has_user

  has_row : find user m.user_to_session_ids_ ≡ some ids
  has_row = ground (arith, owner, v.ids user id, find-empty {V = Unit {0}} id)

  has_conns : find id m.session_id_to_conns_ ≡ some conns
  has_conns = ground (arith, owner, v.live id)

  -- With no connection left, no other connection is attached to the session.
  nobody_left :
      is_empty (erase conn conns) ≡ true
      → (c : GlobalConnId) → holds id (find c (erase conn m.conn_to_session_id_)) ≡ false
  nobody_left e c = ground (
    arith,
    v.conns id c,
    find_of_is_empty c (erase conn conns),
    find-erase conn c conns,
    find-erase conn c m.conn_to_session_id_,
  )

  -- The state in which `forget_idle_user` is called.
  abbrev without : SessionManager
  without = record m {
    conn_to_session_ = erase conn m.conn_to_session_;
    conn_to_session_id_ = erase conn m.conn_to_session_id_;
    session_id_to_conns_ = erase id m.session_id_to_conns_;
    session_id_to_user_ = erase id m.session_id_to_user_;
    user_to_session_ids_ = (drop user id ids m.user_to_session_ids_).0;
  }

  abbrev kept : SessionManager
  kept = record m {
    conn_to_session_ = erase conn m.conn_to_session_;
    conn_to_session_id_ = erase conn m.conn_to_session_id_;
    session_id_to_conns_ = put id (erase conn conns) m.session_id_to_conns_;
  }

  remove-cases :
      remove_connection conn m
      ≡ (if is_empty (erase conn conns) then forget_idle_user user without else kept)
  unfolding remove_connection
  remove-cases = ground (arith, has_user, has_id, has_conns, has_row)

  kept-IsValid : is_empty (erase conn conns) ≡ false → IsValid kept
  kept-IsValid e = record {
    paired = λ c. ground (
      arith,
      v.paired c,
      find-erase conn c m.conn_to_session_,
      find-erase conn c m.conn_to_session_id_,
    );
    owned = λ c s h. ground (
      arith,
      v.owned c s,
      find-erase conn c m.conn_to_session_,
      find-erase conn c m.conn_to_session_id_,
    );
    conns = λ s c. ground (
      arith,
      has_id,
      v.conns s c,
      find-erase conn c m.conn_to_session_id_,
      find-erase conn c conns,
      lookup-put id m.session_id_to_conns_ (erase conn conns) s c,
    );
    ids = v.ids;
    live = λ s.
        ground (arith, v.live s, owner, find-put id s (erase conn conns) m.session_id_to_conns_);
    conns_inhabited = NoEmpty-put id m.session_id_to_conns_ (erase conn conns) e v.conns_inhabited;
    ids_inhabited = v.ids_inhabited;
    known = v.known;
    minted = v.minted;
    distinct = v.distinct;
    counted = v.counted;
  }

  module _ (last : is_empty (erase conn conns) ≡ true) where
    closed_owned :
        (c : GlobalConnId) (s : SessionId)
        → find c without.conn_to_session_id_ ≡ some s
        → find s without.session_id_to_user_ ≡ find c without.conn_to_session_
    closed_owned c s h = ground (
      arith,
      nobody_left last c,
      v.owned c s,
      find-erase conn c m.conn_to_session_,
      find-erase conn c m.conn_to_session_id_,
      find-erase id s m.session_id_to_user_,
    )

    closed_conns :
        (s : SessionId) (c : GlobalConnId)
        → is_some (lookup s c without.session_id_to_conns_)
          ≡ holds s (find c without.conn_to_session_id_)
    closed_conns s c = ground (
      arith,
      nobody_left last c,
      has_id,
      v.conns s c,
      find-erase conn c m.conn_to_session_id_,
      lookup-erase id m.session_id_to_conns_ s c,
    )

    closed_ids :
        (u : UserId) (s : SessionId)
        → is_some (lookup u s without.user_to_session_ids_)
          ≡ holds u (find s without.session_id_to_user_)
    closed_ids u s = ground (
      arith,
      owner,
      v.ids u s,
      find-erase id s m.session_id_to_user_,
      lookup-drop user m.user_to_session_ids_ id ids u s refl,
    )

    -- The user's row after the drop decides whether the state stays.
    idle_after : user_has_active_sessions user without ≡ not (is_empty (erase id ids))
    idle_after =
        unfold drop in
        ground (
          arith,
          find-put user user (erase id ids) m.user_to_session_ids_,
          find-erase user user m.user_to_session_ids_,
          is_empty-empty SessionId (Unit {0}),
        )

    rows_after :
        (u : UserId)
        → is_some (find u without.user_to_session_ids_)
          ≡ ite
              (dec_eq user u)
              (not (is_empty (erase id ids)))
              (is_some (find u m.user_to_session_ids_))
    rows_after u =
        unfold drop in
        ground (
          arith,
          find-put user u (erase id ids) m.user_to_session_ids_,
          find-erase user u m.user_to_session_ids_,
        )

    closed-IsValid : IsValid (forget_idle_user user without)
    unfolding forget_idle_user
    closed-IsValid = record {
      paired = λ c. ground (
        arith,
        v.paired c,
        find-erase conn c m.conn_to_session_,
        find-erase conn c m.conn_to_session_id_,
      );
      owned = λ c s. ground (arith, closed_owned c s);
      conns = λ s c. ground (arith, closed_conns s c);
      ids = λ u s. ground (arith, closed_ids u s);
      live = λ s. ground (
        arith,
        v.live s,
        find-erase id s m.session_id_to_conns_,
        find-erase id s m.session_id_to_user_,
      );
      conns_inhabited = ground (arith, NoEmpty-erase id m.session_id_to_conns_ v.conns_inhabited);
      ids_inhabited =
          ground (arith, NoEmpty-drop user m.user_to_session_ids_ id ids v.ids_inhabited);
      known = λ u.
          ground
            (arith, v.known u, has_row, idle_after, rows_after u, find-erase user u m.sessions_);
      minted = λ s u h. ground (arith, v.minted s u, find-erase id s m.session_id_to_user_);
      distinct = ground (arith, v.distinct, IsMap-erase user m.sessions_ v.distinct);
      counted =
          ground (arith, v.counted, v.known user, has_row, size-erase user m.sessions_ v.distinct);
    }

  without-WithinLimit : WithinLimit m → WithinLimit (forget_idle_user user without)
  unfolding forget_idle_user drop
  without-WithinLimit w =
      let no_ids : IsMap (empty {K = SessionId} {V = Unit {0}}) = IsMap-empty in
      record {
        rows = λ u. ground (
          arith,
          no_ids,
          w.rows u,
          IsMap-erase id ids (w.rows user),
          find-put user u (erase id ids) m.user_to_session_ids_,
          find-erase user u m.user_to_session_ids_,
        );
        within = λ u h. ground (
          arith,
          w.within u,
          w.within user,
          size-erase id ids (w.rows user),
          find-put user u (erase id ids) m.user_to_session_ids_,
          find-erase user u m.user_to_session_ids_,
          size-empty SessionId (Unit {0}),
        );
      }

module _ (m : SessionManager) (v : IsValid m) (conn : GlobalConnId) where
  -- A connection that nobody has: erasing it changes no lookup.
  stranger-IsValid :
      find conn m.conn_to_session_ ≡ none
      → IsValid (record m { conn_to_session_id_ = erase conn m.conn_to_session_id_ })
  stranger-IsValid e =
      let same = λ (c : GlobalConnId). find-erase conn c m.conn_to_session_id_ in
      record {
        paired = λ c. ground (arith, e, v.paired c, same c);
        owned = λ c s h. ground (arith, e, v.paired conn, v.owned c s, same c);
        conns = λ s c. ground (arith, e, v.paired conn, v.conns s c, same c);
        ids = v.ids;
        live = v.live;
        conns_inhabited = v.conns_inhabited;
        ids_inhabited = v.ids_inhabited;
        known = v.known;
        minted = v.minted;
        distinct = v.distinct;
        counted = v.counted;
      }

  -- `removeConnection` keeps the maps in agreement.
  pub remove_connection-IsValid : IsValid (remove_connection conn m)
  remove_connection-IsValid = elim (Option-cases (find conn m.conn_to_session_)) [
    | inl e ↦ unfold remove_connection in rw (e, remove_connection) (stranger-IsValid e)
    | inr (user, e) ↦ elim (Option-cases (find conn m.conn_to_session_id_)) [
      | inl e' ↦ absurd (ground (arith, v.paired conn))
      | inr (id, e') ↦
          rw (remove-cases m v conn user id e e')
            (elim (Bool-cases (is_empty (erase conn (row (find id m.session_id_to_conns_))))) [
              | inl last ↦ rw last (closed-IsValid m v conn user id e e' last)
              | inr more ↦ rw more (kept-IsValid m v conn user id e e' more)
            ])
    ]
  ]

  -- On valid maps `removeConnection` takes the connection from its user and its session, and
  -- leaves every other connection with both.
  pub remove_connection_lem :
      (c : GlobalConnId)
      → (find c (remove_connection conn m).conn_to_session_
          ≡ ite (dec_eq conn c) none (find c m.conn_to_session_))
        × (find c (remove_connection conn m).conn_to_session_id_
            ≡ ite (dec_eq conn c) none (find c m.conn_to_session_id_))
  unfolding remove_connection
  remove_connection_lem c = (
    ground (arith, v.paired conn, find-erase conn c m.conn_to_session_),
    ground (arith, v.paired conn, find-erase conn c m.conn_to_session_id_),
  )

  pub remove_connection-WithinLimit : WithinLimit m → WithinLimit (remove_connection conn m)
  remove_connection-WithinLimit w = elim (Option-cases (find conn m.conn_to_session_)) [
    | inl e ↦
        unfold remove_connection in
        rw (e, remove_connection) (record { rows = w.rows; within = w.within })
    | inr (user, e) ↦ elim (Option-cases (find conn m.conn_to_session_id_)) [
      | inl e' ↦ absurd (ground (arith, v.paired conn))
      | inr (id, e') ↦
          rw (remove-cases m v conn user id e e')
            (elim (Bool-cases (is_empty (erase conn (row (find id m.session_id_to_conns_))))) [
              | inl last ↦ rw last (without-WithinLimit m v conn user id e e' w)
              | inr more ↦ rw more (record { rows = w.rows; within = w.within })
            ])
    ]
  ]
