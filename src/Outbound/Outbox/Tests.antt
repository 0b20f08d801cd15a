-- ===== src/Outbound/Outbox/Tests.antt =====
-- An outbox of two high messages, full.
use kergit_server.Base.{
  ◌+◌, ◌≤◌, ◌<◌, ◌≡◌, ◌⊎◌, refl, false, none, List, [], ◌∷◌, ◌++◌, arith, length,
}
use kergit_server.Outbound.Msg.{OutboundPriority, Action, AuthState, OutboundItem, OutgoingMessage}
use kergit_server.Outbound.Registry.{PerConnectionOutbox}
use kergit_server.Outbound.Queue.Laws.{Call}
use kergit_server.Outbound.Outbox.{slow_drop, enqueue, erase_last_low, overflow}
use kergit_server.Outbound.Outbox.Bounds.{highs, enqueue-high}

abbrev renew : OutboundItem
renew = record {
  priority = OutboundPriority.high;
  action =
      Action.auth_action
        (record { state = AuthState.authenticated; expires_at = 9; user_id = none });
}

abbrev full : PerConnectionOutbox
full = record { q = renew ∷ renew ∷ []; capacity = 2; slow_hits = 3; drop_pending = false }

fourth : (enqueue renew full).q ≡ slow_drop ∷ []
unfolding enqueue erase_last_low overflow
fourth = refl

enqueue-high_example :
    (highs (enqueue renew full).q ≡ highs full.q ++ renew ∷ [])
    ⊎ ((full.capacity ≤ length full.q)
        × (highs full.q ≡ full.q)
        × (((enqueue renew full).q ≡ full.q)
              × ((enqueue renew full).slow_hits ≡ full.slow_hits + 1)
              × (full.slow_hits < 3)
            ⊎ ((enqueue renew full).q ≡ slow_drop ∷ []) × (full.slow_hits ≡ 3)))
enqueue-high_example = enqueue-high renew full refl (omega arith)

abbrev notice : OutgoingMessage
notice = record { priority = OutboundPriority.high; conns = []; action = renew.action }

abbrev history : List Call
history = Call.pushes notice ∷ Call.pushes notice ∷ Call.pops ∷ []
