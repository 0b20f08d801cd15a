-- ===== src/Session/Lifecycle.antt =====
-- Runs of the manager, and what its answers say about the open connections.
use kergit_server.Base.{
  ◌+◌, ◌^◌, ◌≤◌, ◌<◌, ◌≡◌, sym, ap, ◌∙◌, ◌↔◌, inl, inr, true, none, some, List, [], ◌∷◌, length,
  arith, is_some, nat_key, Option-cases,
}
use kergit_server.Base.Map.{find, put, find-put, nonempty_of_find, some_entry, size-put, IsMap-put}
use kergit_server.Base.Nested.{row}
use kergit_server.Ids.{GlobalConnId, UserId, HubId, ChannelId, global_conn_id_key, user_id_key}
use kergit_server.Session.{
  SessionInfo, SessionManager, has_session, attach_connection, remove_connection, join_text_channel,
  leave_text_channel,
}
use kergit_server.Session.Invariant.{IsValid, WithinLimit}
use kergit_server.Session.Attach.{attach_connection-IsValid, attach_connection-WithinLimit}
use kergit_server.Session.Remove.{remove_connection-IsValid, remove_connection-WithinLimit}

module _ (m : SessionManager) (v : IsValid m) where
  set_info-IsValid :
      (u : UserId) (i : SessionInfo)
      → is_some (find u m.sessions_) ≡ true
      → IsValid (record m { sessions_ = put u i m.sessions_ })
  set_info-IsValid u i h = record {
    paired = v.paired;
    owned = v.owned;
    conns = v.conns;
    ids = v.ids;
    live = v.live;
    conns_inhabited = v.conns_inhabited;
    ids_inhabited = v.ids_inhabited;
    known = λ w. ground (arith, v.known w, find-put u w i m.sessions_);
    minted = v.minted;
    distinct = IsMap-put u i m.sessions_ v.distinct;
    counted = ground (arith, v.counted, size-put u i m.sessions_);
  }

  join_text_channel-IsValid :
      (u : UserId) (h : HubId) (c : ChannelId) → IsValid (join_text_channel u h c m)
  unfolding join_text_channel
  join_text_channel-IsValid u h c =
      ground
        (arith, v, set_info-IsValid u (record { current_hub = some h; current_channel = some c }))

  leave_text_channel-IsValid : (u : UserId) → IsValid (leave_text_channel u m)
  unfolding leave_text_channel
  leave_text_channel-IsValid u = elim (Option-cases (find u m.sessions_)) [
    | inl e ↦ rw (e, leave_text_channel) v
    | inr (i, e) ↦
        rw (e, leave_text_channel)
          (set_info-IsValid u (record i { current_hub = none }) (ap is_some e))
  ]

  -- The connections of a user with a session: one of each.
  online_connection :
      (u : UserId)
      → has_session u m ≡ true
      → (c : GlobalConnId) × (find c m.conn_to_session_ ≡ some u)
  online_connection u h =
      let (s, t, in_row) = some_entry (row (find u m.user_to_session_ids_)) (ground arith) in
      let owner : find s m.session_id_to_user_ ≡ some u = ground (arith, in_row, v.ids u s) in
      let here : find s m.session_id_to_conns_ ≡ some (row (find s m.session_id_to_conns_)) =
        ground (arith, owner, v.live s) in
      let (c, t', attached) =
        some_entry (row (find s m.session_id_to_conns_)) (v.conns_inhabited.inhabited s _ here) in
      let at : find c m.conn_to_session_id_ ≡ some s = ground (arith, attached, v.conns s c) in
      (c, sym (v.owned c s at) ∙ owner)

  online_session :
      (u : UserId) (c : GlobalConnId) → find c m.conn_to_session_ ≡ some u → has_session u m ≡ true
  online_session u c h = elim (Option-cases (find c m.conn_to_session_id_)) [
    | inl e ↦ absurd (ground (arith, e, h, v.paired c))
    | inr (s, e) ↦ ground (
      arith,
      h,
      v.owned c s e,
      v.ids u s,
      nonempty_of_find s (row (find u m.user_to_session_ids_)),
    )
  ]

  pub online_iff :
      (u : UserId)
      → (has_session u m ≡ true) ↔ ((c : GlobalConnId) × (find c m.conn_to_session_ ≡ some u))
  online_iff u = (online_connection u, λ (c, h). online_session u c h)

pub data Call : Type 0 where
  attaches : GlobalConnId → UserId → Call
  removes : GlobalConnId → Call
  joins_text : UserId → HubId → ChannelId → Call
  leaves_text : UserId → Call

unfoldable pub step : Call → SessionManager → SessionManager
step (attaches c u) m = (attach_connection c u m).0
step (removes c) m = remove_connection c m
step (joins_text u h c) m = join_text_channel u h c m
step (leaves_text u) m = leave_text_channel u m

unfoldable pub run : List Call → SessionManager → SessionManager
run [] m = m
run (c ∷ cs) m = run cs (step c m)

step-IsValid :
    (c : Call) (m : SessionManager)
    → IsValid m
    → m.next_session_id_ + 1 < 2 ^ 64
    → IsValid (step c m)
unfolding step
step-IsValid (attaches c u) m v room = attach_connection-IsValid m v c u room
step-IsValid (removes c) m v room = remove_connection-IsValid m v c
step-IsValid (joins_text u h c) m v room = join_text_channel-IsValid m v u h c
step-IsValid (leaves_text u) m v room = leave_text_channel-IsValid m v u

minted-step : (c : Call) (m : SessionManager) → (step c m).next_session_id_ ≤ m.next_session_id_ + 1
unfolding step
minted-step (attaches c u) m = unfold attach_connection in ground arith
minted-step (removes c) m = unfold remove_connection in ground arith
minted-step (joins_text u h c) m = unfold join_text_channel in ground arith
minted-step (leaves_text u) m = unfold leave_text_channel in ground arith

-- From valid maps, and as long as the 64-bit counter of ids does not wrap, any calls leave the
-- maps valid: they agree on which connection has which session and which session has which user,
-- hold no empty row, and `active_users` counts the users with a session.
pub sessions-IsValid :
    (cs : List Call) (m : SessionManager)
    → IsValid m
    → m.next_session_id_ + length cs < 2 ^ 64
    → IsValid (run cs m)
unfolding run
sessions-IsValid [] m v room = v
sessions-IsValid (c ∷ cs) m v room =
    sessions-IsValid cs (step c m) (step-IsValid c m v (omega arith))
      (omega (arith, minted-step c m))

-- From valid maps, and as long as the counter of ids does not wrap, after any calls a user has a
-- session exactly if some connection is attached to the user.
pub online_run :
    (cs : List Call) (m : SessionManager) (u : UserId)
    → IsValid m
    → m.next_session_id_ + length cs < 2 ^ 64
    → (has_session u (run cs m) ≡ true)
      ↔ ((c : GlobalConnId) × (find c (run cs m).conn_to_session_ ≡ some u))
online_run cs m u v room = online_iff (run cs m) (sessions-IsValid cs m v room) u

step-WithinLimit :
    (c : Call) (m : SessionManager) → IsValid m → WithinLimit m → WithinLimit (step c m)
unfolding step
step-WithinLimit (attaches c u) m v w = attach_connection-WithinLimit m v c u w
step-WithinLimit (removes c) m v w = remove_connection-WithinLimit m v c w
step-WithinLimit (joins_text u h c) m v w = unfold join_text_channel in ground (arith, w)
step-WithinLimit (leaves_text u) m v w = unfold leave_text_channel in ground (arith, w)

-- From valid maps within the limit, and as long as the counter of ids does not wrap, no calls
-- bring a user more sessions than `max_sessions_per_user`, where that is not 0.
pub run-WithinLimit :
    (cs : List Call) (m : SessionManager)
    → IsValid m
    → WithinLimit m
    → m.next_session_id_ + length cs < 2 ^ 64
    → WithinLimit (run cs m)
unfolding run
run-WithinLimit [] m v w room = w
run-WithinLimit (c ∷ cs) m v w room =
    run-WithinLimit cs (step c m) (step-IsValid c m v (omega arith)) (step-WithinLimit c m v w)
      (omega (arith, minted-step c m))
