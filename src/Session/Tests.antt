-- ===== src/Session/Tests.antt =====
-- Two connections of one user, under a limit of two sessions.
use kergit_server.Base.{
  ◌≡◌, refl, ◌↔◌, ite, dec_eq, true, none, some, List, [], ◌∷◌, arith, ℕ_discrete, nat_key, String,
}
use kergit_server.Base.Map.{find, put, emplace, erase, empty, is_empty, size}
use kergit_server.Ids.{
  GlobalConnId, UserId, global_conn_id_key, user_id_key, UserId_discrete, GlobalConnId_discrete,
}
use kergit_server.Session.{
  SessionManager, AttachResult, init, attach_connection, remove_connection, has_session,
}
use kergit_server.Session.Invariant.{IsValid, WithinLimit, init-IsValid, init-WithinLimit}
use kergit_server.Session.Remove.{remove_connection_lem}
use kergit_server.Session.Lifecycle.{Call, step, run, sessions-IsValid, run-WithinLimit, online_run}

abbrev alice : UserId
alice = record { value = "alice" }

abbrev tab : String → GlobalConnId
tab c = record { netstack_id = record { value = "ns" }; conn_id = record { value = c } }

abbrev calls : List Call
calls = Call.attaches (tab "a") alice ∷ Call.attaches (tab "b") alice ∷ []

abbrev two_tabs : SessionManager
two_tabs = run calls (init 2)

computing : Unit {0}
unfolding run step init attach_connection remove_connection find put emplace erase empty is_empty
    size UserId_discrete GlobalConnId_discrete ℕ_discrete
computing = tt

third_tab : (attach_connection (tab "c") alice two_tabs).1 ≡ AttachResult.session_limit_exceeded
unfolding computing
third_tab = refl

next_id : two_tabs.next_session_id_ ≡ 2
unfolding computing
next_id = refl

two_tabs-IsValid : IsValid two_tabs
unfolding init
two_tabs-IsValid = sessions-IsValid calls (init 2) (init-IsValid 2) (omega arith)

sessions-IsValid_example : IsValid (run calls (init 2))
unfolding init
sessions-IsValid_example = sessions-IsValid calls (init 2) (init-IsValid 2) (omega arith)

run-WithinLimit_example : WithinLimit (run calls (init 2))
unfolding init
run-WithinLimit_example =
    run-WithinLimit calls (init 2) (init-IsValid 2) (init-WithinLimit 2) (omega arith)

remove_connection_lem_example :
    (find (tab "b") (remove_connection (tab "a") two_tabs).conn_to_session_
      ≡ ite (dec_eq (tab "a") (tab "b")) none (find (tab "b") two_tabs.conn_to_session_))
    × (find (tab "b") (remove_connection (tab "a") two_tabs).conn_to_session_id_
        ≡ ite (dec_eq (tab "a") (tab "b")) none (find (tab "b") two_tabs.conn_to_session_id_))
remove_connection_lem_example = remove_connection_lem two_tabs two_tabs-IsValid (tab "a") (tab "b")

online_run_example :
    (has_session alice two_tabs ≡ true)
    ↔ ((c : GlobalConnId) × (find c two_tabs.conn_to_session_ ≡ some alice))
unfolding init
online_run_example = online_run calls (init 2) alice (init-IsValid 2) (omega arith)
