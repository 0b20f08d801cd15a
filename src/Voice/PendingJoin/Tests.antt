-- ===== src/Voice/PendingJoin/Tests.antt =====
-- Tests of app/services/voice/PendingJoinIntentStore.cpp.
use kergit_server.Base.{
  ◌≡◌, refl, arith, true, false, Option, some, [], ◌∷◌, String_discrete, string_key,
}
use kergit_server.Base.Map.{empty, find, put}
use kergit_server.Ids.{UserId, user_id_key}
use kergit_server.Livekit.Keys.{Bytes}
use kergit_server.Redis.{arrives, ttl}
use kergit_server.Voice.PendingJoin.{
  PendingJoinIntent, Json, boolean, Doc, JsonLib, doc_of, stage, read, update,
}
use kergit_server.Voice.PendingJoin.Laws.{as_read, ReadsBack, read-update-stage}

abbrev ann : UserId
ann = record { value = "ann" }

-- Ann moves from the lobby to the stage; then her leave of the lobby is seen.
abbrev move : PendingJoinIntent
move = record {
  session_id = 4;
  intent_nonce = "c0ffee";
  to_channel = record { value = "stage" };
  from_channel = record { value = "lobby" };
  has_from_channel = true;
  muted = true;
  deafened = false;
  old_leave_seen = false;
  new_join_seen = false;
  expires_at_unix = 0;
}

abbrev moved : PendingJoinIntent
moved = record move { old_leave_seen = true; expires_at_unix = 1070 }

-- A library for the two documents, told apart by a field.
abbrev dump_mark : Option Json → Bytes
dump_mark (some (boolean true)) = 1 ∷ []
dump_mark _ = []

abbrev parse_mark : Bytes → Option Doc
parse_mark [] = some (doc_of ann move 1070)
parse_mark _ = some (doc_of ann moved 1070)

abbrev marks : JsonLib
marks = record { dump = λ d. some (dump_mark (find "old_leave_seen" d)); parse = parse_mark }

move-ReadsBack : ReadsBack marks ann move 1070
unfolding doc_of find put empty String_discrete
move-ReadsBack = record { raw = _; dumped = refl; parsed = refl }

moved-ReadsBack : ReadsBack marks ann moved 1070
unfolding doc_of find put empty String_discrete
moved-ReadsBack = record { raw = _; dumped = refl; parsed = refl }

read-update-stage_example :
    (let staged = (stage marks arrives 1000 ann move 60 empty).1 in
      let updated = update marks arrives arrives ann moved staged in
      (read marks arrives ann staged ≡ some (as_read move 1070))
      × (updated.0 ≡ true)
      × (read marks arrives ann updated.1 ≡ some (as_read moved 1070))
      × (ttl arrives ann updated.1 ≡ some 70))
read-update-stage_example =
    read-update-stage marks ann 1000 60 move moved empty (ground arith) move-ReadsBack
      moved-ReadsBack
