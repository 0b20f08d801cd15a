-- ===== src/Hub/Service/WarmKeeps.antt =====
-- warmSnapshotsForHubs of HubService.cpp keeps the caches coherent.
use kergit_server.Base.{
  Bool, true, false, List, [], ◌∷◌, ◌++◌, ◌≡◌, refl, sym, subst, ◌∙◌, string_key, if◌then◌else◌,
  All, All-append,
}
use kergit_server.Ids.{hub_id_key, channel_id_key, user_id_key}
use kergit_server.Hub.Domain.{Hub}
use kergit_server.Hub.Repository.{member_key}
use kergit_server.Hub.Service.{HubService, cached}
use kergit_server.Hub.Service.Batch.{
  WarmScan, no_warm, refresh_hubs, warm_hub, warm_hubs, warm_snapshots_for_hubs,
}
use kergit_server.Hub.Service.BatchKeeps.{IsCurrent, row_of, Fills, Fills-cached_if, Fills-refresh}
use kergit_server.Hub.Service.Coherent.{InUse, IsCoherent}

module _ ⦃u : InUse⦄ where
  abbrev WarmKeeps : HubService → WarmScan × HubService → Type 0
  WarmKeeps s r = Fills s r.1 × All (IsCurrent s.repo) r.0.all_hubs

  WarmKeeps-if :
      (b : Bool) (hub : Hub) (scan : WarmScan) (s : HubService) (next : WarmScan)
      → next.all_hubs ≡ scan.all_hubs ++ (hub ∷ [])
      → IsCoherent s
      → IsCurrent s.repo hub
      → All (IsCurrent s.repo) scan.all_hubs
      → WarmKeeps s (if b then (scan, s) else (next, (cached hub.id s).1))
  WarmKeeps-if true hub scan s next e h c a = (record { repo = refl; coherent = h }, a)
  WarmKeeps-if false hub scan s next e h c a = (
    Fills-cached_if hub.id s false (h.stored hub.id (row_of hub) c) h,
    rw e (All-append _ scan.all_hubs _ a (c, tt)),
  )

  WarmKeeps-warm_hub :
      (hub : Hub) (scan : WarmScan) (s : HubService)
      → IsCoherent s
      → IsCurrent s.repo hub
      → All (IsCurrent s.repo) scan.all_hubs
      → WarmKeeps s (warm_hub hub (scan, s))
  unfolding warm_hub
  WarmKeeps-warm_hub hub scan s h c a = WarmKeeps-if _ hub scan s _ refl h c a

  WarmKeeps-warm_hubs :
      (hubs : List Hub) (scan : WarmScan) (s : HubService)
      → IsCoherent s
      → All (IsCurrent s.repo) hubs
      → All (IsCurrent s.repo) scan.all_hubs
      → WarmKeeps s (warm_hubs hubs (scan, s))
  unfolding warm_hubs
  WarmKeeps-warm_hubs [] scan s h a b = (record { repo = refl; coherent = h }, b)
  WarmKeeps-warm_hubs (hub ∷ hubs) scan s h a b =
      let r = warm_hub hub (scan, s) in
      let k : WarmKeeps s r = WarmKeeps-warm_hub hub scan s h a.0 b in
      let carry : (xs : List Hub) → All (IsCurrent s.repo) xs → All (IsCurrent r.1.repo) xs =
        λ xs x. subst (λ d. All (IsCurrent d) xs) (sym k.0.repo) x in
      let l : WarmKeeps r.1 (warm_hubs hubs r) =
        WarmKeeps-warm_hubs hubs r.0 r.1 k.0.coherent (carry hubs a.1) (carry r.0.all_hubs k.1) in
      (
        record { repo = l.0.repo ∙ k.0.repo; coherent = l.0.coherent },
        subst (λ d. All (IsCurrent d) (warm_hubs hubs r).0.all_hubs) k.0.repo l.1,
      )

  Fills-refresh_if :
      (b : Bool) (hubs : List Hub) (s : HubService)
      → IsCoherent s
      → All (IsCurrent s.repo) hubs
      → Fills s (if b then refresh_hubs hubs s else s)
  Fills-refresh_if true hubs s h a = Fills-refresh hubs s h a
  Fills-refresh_if false hubs s h a = record { repo = refl; coherent = h }

  -- The hubs to warm are given as they stand in the database.
  pub Fills-warm_snapshots_for_hubs :
      (hubs : List Hub) (s : HubService)
      → IsCoherent s
      → All (IsCurrent s.repo) hubs
      → Fills s (warm_snapshots_for_hubs hubs s)
  unfolding warm_snapshots_for_hubs
  Fills-warm_snapshots_for_hubs hubs s h a =
      let r = warm_hubs hubs (no_warm, s) in
      let k : WarmKeeps s r = WarmKeeps-warm_hubs hubs no_warm s h a tt in
      let f : Fills r.1 (if r.0.requires_db_refresh then refresh_hubs r.0.all_hubs r.1 else r.1) =
        Fills-refresh_if r.0.requires_db_refresh r.0.all_hubs r.1 k.0.coherent
          (subst (λ d. All (IsCurrent d) r.0.all_hubs) (sym k.0.repo) k.1) in
      record { repo = f.repo ∙ k.0.repo; coherent = f.coherent }
