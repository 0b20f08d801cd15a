-- ===== src/Voice/Resume/Tests.antt =====
-- Tests of app/services/voice/VoiceResumeRegistry.cpp.
use kergit_server.Base.{
  ◌≡◌, ◌≢◌, Bool, refl, arith, ap, none, some, [], ◌∷◌, String_discrete, ite, true, false, dec_eq,
}
use kergit_server.Base.Map.{empty}
use kergit_server.Ids.{UserId, UserId_discrete, user_id_key}
use kergit_server.Redis.{arrives}
use kergit_server.Voice.Resume.{Resumes, rotate, load_from_storage, read, clear, clear_all}
use kergit_server.Voice.Resume.Laws.{resume_id_survives_restart}

abbrev ann : UserId
ann = record { value = "ann" }

abbrev bob : UserId
bob = record { value = "bob" }

abbrev is_ann : UserId → Bool
is_ann u = ite (dec_eq u ann) true false

ann_is_not_bob : ann ≢ bob
unfolding UserId_discrete String_discrete
ann_is_not_bob e = ground (arith, ap is_ann e)

abbrev fresh : Resumes
fresh = record { user_resume_ids_ = empty; redis_ = empty }

resume_id_survives_restart_example :
    (let rotated = rotate arrives ann (7 ∷ []) fresh in
      let loaded = load_from_storage arrives ann (clear_all rotated) in
      let cleared = clear arrives ann rotated in
      (read ann rotated ≡ some (7 ∷ []))
      × (loaded.0 ≡ some (7 ∷ []))
      × (read ann loaded.1 ≡ some (7 ∷ []))
      × (read ann cleared ≡ none)
      × ((load_from_storage arrives ann cleared).0 ≡ none)
      × (read bob cleared ≡ read bob fresh))
resume_id_survives_restart_example =
    resume_id_survives_restart ann (7 ∷ []) fresh bob ann_is_not_bob refl
