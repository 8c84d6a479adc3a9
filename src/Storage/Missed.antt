-- ===== src/Storage/Missed.antt =====
-- The notices of missed schedules (evidence.rs): `record_missed_schedule`, their reading, and
-- `mark_missed_schedule_decision`.
pub mod Count
pub mod Pending
use sync_plus.Base.{
  ℕ, suc, ◌+◌, ◌^◌, Bool, true, false, ◌&&◌, ◌||◌, not, Option, none, some, List, [], ◌∷◌, ◌++◌,
  Text, Eq, if◌then◌else◌, ◌==◌, ltb, any, find, Result, ok, err, panicked, ◌>>=◌, ◌>>◌, require,
  nat_eq,
}
use sync_plus.Base.Int.{ℤ, pos}
use sync_plus.Base.Int64.{is_negative, int_lt}
use sync_plus.Base.Strings.{codes, is_blank}
use sync_plus.Storage.{
  MissedScheduleNotice, SchedulerEvent, SchedulerEventKind, missed, Store, Operation, value_as_i64,
}
use sync_plus.Storage.Checks.{
  StorageError, invalid_event, corrupt_evidence, missed_schedule_not_found,
  missed_schedule_already_decided, MissedScheduleDecision, pending, run_now, not_now,
}
use sync_plus.Storage.Profiles.{commit}
use sync_plus.Storage.Claim.{insert_scheduler_event_in_transaction}

pub MissedScheduleDecision-discrete : Discrete MissedScheduleDecision
MissedScheduleDecision-discrete = hlevel

instance unfoldable pub decision_eq : Eq MissedScheduleDecision
unfolding MissedScheduleDecision-discrete
decision_eq = record { dec = MissedScheduleDecision-discrete }

pub SchedulerEventKind-discrete : Discrete SchedulerEventKind
SchedulerEventKind-discrete = hlevel

instance unfoldable pub event_kind_eq : Eq SchedulerEventKind
unfolding SchedulerEventKind-discrete
event_kind_eq = record { dec = SchedulerEventKind-discrete }

-- `WHERE profile_id = … AND decision = 'pending'`.
abbrev pub is_pending_of : ℕ → MissedScheduleNotice → Bool
is_pending_of profile_id notice = notice.profile_id == profile_id && notice.decision == pending

-- `MAX` of SQL.
abbrev later_of : ℤ → ℤ → ℤ
later_of a b = if int_lt a b then b else a

abbrev pub with_occurrence : ℤ → Text → MissedScheduleNotice → MissedScheduleNotice
with_occurrence scheduled_at reason notice = record notice {
  latest_scheduled_at_unix_seconds = later_of notice.latest_scheduled_at_unix_seconds scheduled_at;
  reason = reason;
  missed_count = notice.missed_count + 1;
}

-- `UPDATE … WHERE notice_id = …`.
abbrev pub update_notice :
    ℕ
    → (MissedScheduleNotice → MissedScheduleNotice)
    → List MissedScheduleNotice
    → List MissedScheduleNotice
update_notice id change [] = []
update_notice id change (n ∷ ns) =
    let rest = update_notice id change ns in if n.notice_id == id then change n ∷ rest else n ∷ rest

-- `UPDATE … SET decision = … WHERE notice_id = … AND decision = 'pending'`.
abbrev pub decide : MissedScheduleDecision → MissedScheduleNotice → MissedScheduleNotice
decide decision notice =
    if notice.decision == pending then record notice { decision = decision } else notice

abbrev pub new_notice : ℕ → ℕ → ℕ → ℤ → Text → MissedScheduleNotice
new_notice id profile_id run_id scheduled_at reason = record {
  notice_id = id;
  profile_id = profile_id;
  run_id = run_id;
  first_scheduled_at_unix_seconds = scheduled_at;
  latest_scheduled_at_unix_seconds = scheduled_at;
  reason = reason;
  decision = pending;
  missed_count = 1;
}

-- The notice of the occurrence: the run's own, or the pending one of the profile, or a new one.
abbrev pub noticed :
    ℕ → ℕ → ℤ → Text → Store → Option MissedScheduleNotice → Option MissedScheduleNotice → Store × ℕ
noticed profile_id run_id scheduled_at reason store (some own) waiting = (store, own.notice_id)
noticed profile_id run_id scheduled_at reason store none (some waiting) = (
  record store {
    notices = update_notice waiting.notice_id (with_occurrence scheduled_at reason) store.notices;
  },
  waiting.notice_id,
)
noticed profile_id run_id scheduled_at reason store none none = (
  record store {
    notices =
        store.notices
        ++ (new_notice store.next_notice_id profile_id run_id scheduled_at reason ∷ []);
    next_notice_id = suc store.next_notice_id;
  },
  store.next_notice_id,
)

abbrev pub notice_in : Store → ℕ → ℕ → ℤ → Text → Store × ℕ
notice_in store profile_id run_id scheduled_at reason =
    noticed profile_id run_id scheduled_at reason store
      (find (λ (n : MissedScheduleNotice). n.run_id == run_id) store.notices)
      (find (is_pending_of profile_id) store.notices)

abbrev pub missed_event : ℕ → ℕ → ℤ → ℕ → SchedulerEvent
missed_event profile_id run_id now notice_id = record {
  profile_id = profile_id;
  run_id = run_id;
  kind = missed;
  created_at_unix_seconds = now;
  missed_notice_id = some notice_id;
  retry_count = none;
}

abbrev pub is_missed_event : ℕ → SchedulerEvent → Bool
is_missed_event run_id event = event.run_id == run_id && event.kind == missed

-- The event of a run's missed occurrence is written once.
abbrev pub with_missed_event : ℕ → ℕ → ℤ → Store × ℕ → Result StorageError (Store × ℕ)
with_missed_event profile_id run_id now (store, notice_id) =
    let written =
      insert_scheduler_event_in_transaction store (missed_event profile_id run_id now notice_id)
      >>= λ after. ok (after, notice_id) in
    if any (is_missed_event run_id) store.events then ok (store, notice_id) else written

abbrev pub occurrence_error : ℤ → Text → Option StorageError
occurrence_error scheduled_at reason =
    if is_negative scheduled_at || is_blank reason
    then some
        (invalid_event (codes "missed schedule notices require a nonnegative time and a reason"))
    else none

abbrev pub run_range_error : ℕ → Option StorageError
run_range_error run_id =
    if ltb run_id (2 ^ 63)
    then none
    else some (invalid_event (codes "missed schedule run identifier is out of range"))

abbrev pub missed_in_transaction : ℕ → ℕ → ℤ → Text → ℤ → Store → Result StorageError (Store × ℕ)
missed_in_transaction profile_id run_id scheduled_at reason now store = do
  require (occurrence_error scheduled_at reason)
  value_as_i64 profile_id
  require (run_range_error run_id)
  with_missed_event profile_id run_id now (notice_in store profile_id run_id scheduled_at reason)

-- `decode_missed_schedule_notice`.
abbrev decode_notice : MissedScheduleNotice → Result StorageError MissedScheduleNotice
decode_notice n =
    if is_negative n.first_scheduled_at_unix_seconds
      || int_lt n.latest_scheduled_at_unix_seconds n.first_scheduled_at_unix_seconds
      || n.missed_count == 0
      || is_blank n.reason
    then err (corrupt_evidence (codes "missed schedule notice contains invalid values"))
    else ok n

abbrev decode_found :
    Option MissedScheduleNotice → Result StorageError (Option MissedScheduleNotice)
decode_found none = ok none
decode_found (some n) = decode_notice n >>= λ m. ok (some m)

abbrev notice_at : ℕ → Store → Option MissedScheduleNotice
notice_at id store = find (λ (n : MissedScheduleNotice). n.notice_id == id) store.notices

abbrev pub load_missed_schedule_notice_by_i64 :
    Store → ℕ → Result StorageError (Option MissedScheduleNotice)
load_missed_schedule_notice_by_i64 store id = decode_found (notice_at id store)

abbrev or_error :
    StorageError → Option MissedScheduleNotice → Result StorageError MissedScheduleNotice
or_error e none = err e
or_error e (some n) = ok n

-- The notice is read again after the commit.
abbrev reread : Store × Result StorageError ℕ → Store × Result StorageError MissedScheduleNotice
reread (store, result) = (
  store,
  result >>= λ id.
      load_missed_schedule_notice_by_i64 store id
      >>= or_error (corrupt_evidence (codes "new missed schedule notice disappeared")),
)

unfoldable pub record_missed_schedule : ℕ → ℕ → ℤ → Text → ℤ → Operation MissedScheduleNotice
record_missed_schedule profile_id run_id scheduled_at reason now store =
    reread (commit store (missed_in_transaction profile_id run_id scheduled_at reason now store))

-- What is said of a notice that was not pending.
abbrev decided_error :
    ℕ → MissedScheduleDecision → Option MissedScheduleNotice → Option StorageError
decided_error id decision none = some (missed_schedule_not_found id)
decided_error id decision (some n) =
    if n.decision == pending || n.decision == decision
    then none
    else some (missed_schedule_already_decided id n.decision)

abbrev pub decided : ℕ → MissedScheduleDecision → Store → Store
decided id decision store = record store {
  notices = update_notice id (decide decision) store.notices;
}

abbrev mark_result : ℕ → MissedScheduleDecision → Store → Result StorageError MissedScheduleNotice
mark_result id decision store =
    require (decided_error id decision (notice_at id store))
    >> (load_missed_schedule_notice_by_i64 (decided id decision store) id
        >>= or_error (missed_schedule_not_found id))

unfoldable pub mark_missed_schedule_decision :
    ℕ → MissedScheduleDecision → Operation MissedScheduleNotice
mark_missed_schedule_decision id pending store =
    (store, err (invalid_event (codes "a missed schedule decision must be Run Now or Not Now")))
mark_missed_schedule_decision id decision store =
    if ltb id (2 ^ 63)
    then (decided id decision store, mark_result id decision store)
    else (store, err (invalid_event (codes "notice identifier is out of range")))
