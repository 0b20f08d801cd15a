-- ===== src/Voice/Resume.antt =====
-- app/services/voice/VoiceResumeRegistry.cpp: the id with which a user may resume a voice session.
--
-- `next` is what generate_nonce_hex makes. A user's name in Redis is the user. RedisClient gives no
-- exception, so each method is its two parts in order.
pub mod Laws
mod Tests
use kergit_server.Base.{ℕ, Option, none, some, if◌then◌else◌}
use kergit_server.Base.Map.{Map, empty, is_nil, find, put, erase}
use kergit_server.Ids.{UserId, user_id_key}
use kergit_server.Livekit.Keys.{Bytes}
use kergit_server.Redis.{Redis, Reply, setex, get, del}

-- The registry and Redis.
pub record Resumes : Type 0 where
  pub user_resume_ids_ : Map UserId Bytes
  pub redis_ : Redis UserId

-- 24 hours in seconds.
abbrev pub ttl : ℕ
ttl = 86400

unfoldable pub rotate : Reply → UserId → Bytes → Resumes → Resumes
rotate r user next s = record {
  user_resume_ids_ = put user next s.user_resume_ids_;
  redis_ = setex r user ttl next s.redis_;
}

unfoldable pub load_from_storage : Reply → UserId → Resumes → Option Bytes × Resumes
load_from_storage r user s = elim (get r user s.redis_) [
  | none ↦ (none, s)
  | some stored ↦
      if is_nil stored
      then (none, s)
      else (some stored, record s { user_resume_ids_ = put user stored s.user_resume_ids_ })
]

unfoldable pub read : UserId → Resumes → Option Bytes
read user s = find user s.user_resume_ids_

unfoldable pub clear : Reply → UserId → Resumes → Resumes
clear r user s = record {
  user_resume_ids_ = erase user s.user_resume_ids_;
  redis_ = del r user s.redis_;
}

unfoldable pub clear_all : Resumes → Resumes
clear_all s = record s { user_resume_ids_ = empty }
