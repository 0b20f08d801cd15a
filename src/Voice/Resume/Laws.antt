-- ===== src/Voice/Resume/Laws.antt =====
-- What VoiceResumeRegistry.cpp remembers and forgets.
use kergit_server.Base.{◌≡◌, ◌≢◌, arith, false, none, some}
use kergit_server.Base.Map.{put, empty, is_nil, find-put, find-put_self, find-erase}
use kergit_server.Ids.{UserId, user_id_key}
use kergit_server.Livekit.Keys.{Bytes}
use kergit_server.Redis.{arrives, Entry, setex, get, del}
use kergit_server.Voice.Resume.{Resumes, ttl, rotate, load_from_storage, read, clear, clear_all}

module _ (user : UserId) (next : Bytes) (s : Resumes) where
  -- While its lifetime lasts, a new resume id is the one that is read, and, when the replies of Redis arrive and it is not
  -- empty, the one that is loaded after the registry has lost all it had in memory, and read again
  -- from then on. After it is cleared, with a reply that arrives, it is neither read nor loaded,
  -- and the ids of other users are read as before.
  pub resume_id_survives_restart :
      (other : UserId)
      → user ≢ other
      → is_nil next ≡ false
      → (let rotated = rotate arrives user next s in
          let loaded = load_from_storage arrives user (clear_all rotated) in
          let cleared = clear arrives user rotated in
          (read user rotated ≡ some next)
          × (loaded.0 ≡ some next)
          × (read user loaded.1 ≡ some next)
          × (read user cleared ≡ none)
          × ((load_from_storage arrives user cleared).0 ≡ none)
          × (read other cleared ≡ read other s))
  unfolding rotate load_from_storage read clear clear_all setex get del
  resume_id_survives_restart other differs full =
      let e : Entry = record { value = next; seconds = some ttl } in
      let redis = put user e s.redis_ in
      let ids = put user next s.user_resume_ids_ in
      (
        find-put_self user next s.user_resume_ids_,
        ground (arith, full, find-put_self user e s.redis_),
        ground (
          arith,
          full,
          find-put_self user e s.redis_,
          find-put_self user next (empty {K = UserId} {V = Bytes}),
        ),
        ground (arith, find-erase user user ids),
        ground (arith, find-erase user user redis),
        ground (
          arith,
          differs,
          find-erase user other ids,
          find-put user other next s.user_resume_ids_,
        ),
      )
