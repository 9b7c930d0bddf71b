-- ===== src/Connection/Handlers/Requests.antt =====
-- The calls that a program makes about its handlers, as values: each of the ten handlers by the functions
-- that are named for it.
use sqxx.Base.{◌≡◌, refl, Bool, List, [], ◌∷◌}
use sqxx.Base.Int.{ℤ, pos}
use sqxx.Connection.Handlers.{
  Hook, commit, rollback, update, trace, profile, authorize, busy, progress, wal, collation,
  HookApi, State, set_handler, busy_timeout, wal_autocheckpoint, set_commit_handler,
  set_rollback_handler, set_update_handler, set_trace_handler, set_profile_handler,
  set_authorize_handler, set_busy_handler, set_progress_handler, set_wal_handler,
  set_collation_handler,
}

-- The calls that a program makes about its handlers; the number is `vinst`, for the progress handler only.
pub data Request : Type 0 where
  sets : Hook → ℤ → Bool → Request
  busy_timeouts wal_autocheckpoints : ℤ → Request

-- The number that the function for a hook gives sqlite3.
abbrev pub number : Hook → ℤ → ℤ
number progress vinst = vinst
number _ vinst = pos 0

module _ {W : Type 0} (api : HookApi W) where
  -- The function that is named for a handler.
  unfoldable pub setter : Hook → ℤ → Bool → State W → State W
  setter commit vinst = set_commit_handler api
  setter rollback vinst = set_rollback_handler api
  setter update vinst = set_update_handler api
  setter trace vinst = set_trace_handler api
  setter profile vinst = set_profile_handler api
  setter authorize vinst = set_authorize_handler api
  setter busy vinst = set_busy_handler api
  setter progress vinst = set_progress_handler api vinst
  setter wal vinst = set_wal_handler api
  setter collation vinst = set_collation_handler api

  pub setter_lem :
      (k : Hook) (vinst : ℤ) (fun : Bool) (s : State W)
      → setter k vinst fun s ≡ set_handler api k (number k vinst) fun s
  unfolding setter set_commit_handler set_rollback_handler set_update_handler set_trace_handler
      set_profile_handler set_authorize_handler set_busy_handler set_progress_handler
      set_wal_handler set_collation_handler
  setter_lem commit vinst fun s = refl
  setter_lem rollback vinst fun s = refl
  setter_lem update vinst fun s = refl
  setter_lem trace vinst fun s = refl
  setter_lem profile vinst fun s = refl
  setter_lem authorize vinst fun s = refl
  setter_lem busy vinst fun s = refl
  setter_lem progress vinst fun s = refl
  setter_lem wal vinst fun s = refl
  setter_lem collation vinst fun s = refl

  unfoldable pub serve : Request → State W → State W
  serve (sets k vinst fun) s = setter k vinst fun s
  serve (busy_timeouts ms) s = (busy_timeout api ms s).1
  serve (wal_autocheckpoints frames) s = (wal_autocheckpoint api frames s).1

  unfoldable pub serve_all : List Request → State W → State W
  unfolding serve
  serve_all [] s = s
  serve_all (r ∷ rs) s = serve_all rs (serve r s)
