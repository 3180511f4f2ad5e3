-- ===== src/Logger/Calls.antt =====
-- Sequences of calls of a logger (logger.cpp): which calls return, and what they keep.
use mathlib.Core.List.{append-nil, append_assoc}
use zero_trust_secure_sessio.Common.{
  ℕ, ◌+◌, ◌≤◌, ◌≡◌, refl, sym, ap, ◌∙◌, inl, inr, Bool, true, false, not, List, [], ◌∷◌, ◌++◌,
  String, arith, map, if◌then◌else◌, ltb, none, keep, count_if, Run, done, deadlock, ◌>>=◌,
  Bool-cases,
}
use zero_trust_secure_sessio.Types.Utils.{SecurityEventType}
use zero_trust_secure_sessio.Config.{ℤ}
use zero_trust_secure_sessio.Logger.{
  LogLevel, SpdLevel, Sink, rotating_file, daily_file, console, Logger, Field, Location,
  log_security_event, log_session_event, log_error, log_info, log_debug, log, log_impl, set_level,
  set_pattern, Ending, returned, threw, add_sink, add_file_sink, add_daily_file_sink,
  enable_console_output, is_console, has_console, hand, level_rank,
}
use zero_trust_secure_sessio.Logger.Messages.{
  log_with_fields, log_authentication_attempt, log_session_creation, log_session_termination,
  log_access_denied, log_security_violation, log_performance_metric, log_connection_stats,
  log_throughput, format_timestamp, format_security_event, log_event,
}

-- A call that adds a sink comes with whether the sink's constructor returns.
pub data Call : Type 0 where
  security_event : String → String → Call
  session_event : String → String → String → Call
  error_line info_line debug_line : String → String → Location → Call
  line : LogLevel → Location → String → Call
  level_set : LogLevel → Call
  pattern_set : String → Call
  file_sink_added : Bool → String → ℕ → ℕ → Call
  daily_file_sink_added : Bool → String → ℤ → ℤ → Call
  console_enabled : Bool → Call
  fields_line : LogLevel → String → String → List Field → Call
  authentication_attempt : String → String → Bool → String → Call
  session_creation : String → String → String → String → Call
  session_termination : String → String → Call
  access_denied : String → String → String → String → Call
  security_violation : String → String → String → Call
  performance_metric : String → String → String → Call
  connection_stats : ℕ → ℕ → Call
  throughput : ℕ → String → Call
  timestamp_format security_event_format : Bool → Call
  event : SecurityEventType → String → String → String → Call

abbrev returning : (Logger → Run Logger) → Logger → Run (Logger × Ending)
returning call l = call l >>= λ l'. done (l', returned)

-- A call of a thread that does not hold the mutex.
pub perform : Call → Logger → Run (Logger × Ending)
perform (security_event event_type details) =
    returning (log_security_event false event_type details)
perform (session_event id event_type details) =
    returning (log_session_event false id event_type details)
perform (error_line component message at) = returning (log_error false component message at)
perform (info_line component message at) = returning (log_info false component message at)
perform (debug_line component message at) = returning (log_debug false component message at)
perform (line level at message) = returning (log false level at message)
perform (level_set level) = returning (set_level false level)
perform (pattern_set pattern) = returning (set_pattern false pattern)
perform (file_sink_added opens file size count) = add_file_sink false opens file size count
perform (daily_file_sink_added opens file hour minute) =
    add_daily_file_sink false opens file hour minute
perform (console_enabled enable) = returning (enable_console_output false enable)
perform (fields_line level component message fields) =
    returning (log_with_fields false level component message fields)
perform (authentication_attempt username ip success reason) =
    returning (log_authentication_attempt false username ip success reason)
perform (session_creation id username ip service) =
    returning (log_session_creation false id username ip service)
perform (session_termination id reason) = returning (log_session_termination false id reason)
perform (access_denied username ip resource reason) =
    returning (log_access_denied false username ip resource reason)
perform (security_violation ip type details) =
    returning (log_security_violation false ip type details)
perform (performance_metric operation duration unit) =
    returning (log_performance_metric false operation duration unit)
perform (connection_stats active total) = returning (log_connection_stats false active total)
perform (throughput bytes direction) = returning (log_throughput false bytes direction)
perform (timestamp_format enable) = returning (format_timestamp false enable)
perform (security_event_format enable) = returning (format_security_event false enable)
perform (event type username ip details) = returning (log_event false type username ip details)

-- The calls one after the other, with how each ended: an exception is caught outside the logger.
pub perform_all : List Call → Logger → Run (Logger × List Ending)
perform_all [] l = done (l, [])
perform_all (call ∷ calls) l = perform call l >>= λ (l', ending).
    perform_all calls l' >>= λ (l'', endings). done (l'', ending ∷ endings)

abbrev pub is_attempt : Call → Bool
is_attempt (authentication_attempt username ip success reason) = true
is_attempt _ = false

-- Only a call that adds a sink throws.
abbrev pub ending_of : Call → Ending
ending_of (file_sink_added opens file size count) = if opens then returned else threw
ending_of (daily_file_sink_added opens file hour minute) = if opens then returned else threw
ending_of _ = returned

abbrev pub console_count : Logger → ℕ
console_count l = count_if is_console l.sinks

-- What a call keeps that returns or throws: the level that the logger gives, at most one console, and what was
-- written before.
abbrev pub Keeps : Logger → Logger → Type 0
Keeps l l' =
    (l'.level ≡ l.level)
    × (console_count l ≤ 1 → console_count l' ≤ 1)
    × ((more : List (SpdLevel × String)) × (l'.written ≡ l.written ++ more))

-- How a call ends that is, or is not, a log-in attempt, with the ending that it has to have.
abbrev CallEnds : Bool → Ending → Logger → Run (Logger × Ending) → Type 0
CallEnds attempt ending l (done (l', ending')) = (attempt ≡ false) × (ending' ≡ ending) × Keeps l l'
CallEnds attempt ending l deadlock = attempt ≡ true

-- The same for calls.
abbrev pub Ends : Bool → List Ending → Logger → Run (Logger × List Ending) → Type 0
Ends attempt endings l (done (l', endings')) = (attempt ≡ false) × (endings' ≡ endings) × Keeps l l'
Ends attempt endings l deadlock = attempt ≡ true

hand-Keeps :
    (level : SpdLevel) (message : String) (l : Logger)
    → CallEnds false returned l (done (hand level message l, returned))
hand-Keeps level message l = (refl, refl, (refl, λ h. h, ((level, message) ∷ [], refl)))

same-Keeps :
    (l l' : Logger)
    → l'.level ≡ l.level
    → console_count l' ≡ console_count l
    → l'.written ≡ l.written
    → Keeps l l'
same-Keeps l l' e n w = (e, λ h. omega (arith, n, h), ([], w ∙ sym (append-nil l.written)))

same-Ends : (ending : Ending) (l : Logger) → CallEnds false ending l (done (l, ending))
same-Ends ending l = (refl, refl, same-Keeps l l refl refl refl)

count_if-append :
    (sinks more : List Sink)
    → count_if is_console (sinks ++ more) ≡ count_if is_console sinks + count_if is_console more
count_if-append [] more = omega arith
count_if-append (sink ∷ sinks) more = omega (arith, count_if-append sinks more)

count_if-keep :
    (sinks : List Sink) → count_if is_console (keep (λ sink. not (is_console sink)) sinks) ≡ 0
count_if-keep [] = refl
count_if-keep (rotating_file file size count level ∷ sinks) = omega (arith, count_if-keep sinks)
count_if-keep (daily_file file hour minute ∷ sinks) = omega (arith, count_if-keep sinks)
count_if-keep (console ∷ sinks) = count_if-keep sinks

count_if-no : (sinks : List Sink) → has_console sinks ≡ false → count_if is_console sinks ≡ 0
count_if-no [] h = refl
count_if-no (rotating_file file size count level ∷ sinks) h = omega (arith, count_if-no sinks h)
count_if-no (daily_file file hour minute ∷ sinks) h = omega (arith, count_if-no sinks h)
count_if-no (console ∷ sinks) h = absurd (ground (arith, h))

enabled-Ends :
    (enable : Bool) (l : Logger)
    → CallEnds false returned l (returning (enable_console_output false enable) l)
unfolding enable_console_output
enabled-Ends true l = elim (Bool-cases (has_console l.sinks)) [
  | inl e ↦ rw (e, enable_console_output) (same-Ends returned l)
  | inr e ↦
      rw (e, enable_console_output)
        (
          refl,
          refl,
          (refl, λ h. omega (arith, count_if-no l.sinks e), ([], sym (append-nil l.written))),
        )
]
enabled-Ends false l = (
  refl,
  refl,
  (refl, λ h. omega (arith, count_if-keep l.sinks), ([], sym (append-nil l.written))),
)

added-Ends :
    (opens : Bool) (sink : Sink) (l : Logger)
    → is_console sink ≡ false
    → CallEnds false (if opens then returned else threw) l (add_sink false opens sink l)
added-Ends false sink l e = same-Ends threw l
added-Ends true sink l e =
    let none_more : count_if is_console (sink ∷ []) ≡ 0 = rw e refl in
    (
      refl,
      refl,
      (
        refl,
        λ h. omega (arith, count_if-append l.sinks (sink ∷ []), none_more, h),
        ([], sym (append-nil l.written)),
      ),
    )

perform-Ends :
    (call : Call) (l : Logger) → CallEnds (is_attempt call) (ending_of call) l (perform call l)
unfolding perform log_security_event log_session_event log_error log_info log_debug log log_impl
    set_level set_pattern add_file_sink add_daily_file_sink log_with_fields
    log_authentication_attempt log_session_creation log_session_termination log_access_denied
    log_security_violation log_performance_metric log_connection_stats log_throughput
    format_timestamp format_security_event log_event
perform-Ends (authentication_attempt username ip success reason) l = refl
perform-Ends (console_enabled enable) l = enabled-Ends enable l
perform-Ends (file_sink_added opens file size count) l =
    added-Ends opens (rotating_file file size count none) l refl
perform-Ends (daily_file_sink_added opens file hour minute) l =
    added-Ends opens (daily_file file hour minute) l refl
perform-Ends (level_set level) l = (refl, refl, (refl, λ h. h, ([], sym (append-nil l.written))))
perform-Ends (pattern_set pattern) l =
    (refl, refl, (refl, λ h. h, ([], sym (append-nil l.written))))
perform-Ends (timestamp_format enable) l =
    (refl, refl, (refl, λ h. h, ([], sym (append-nil l.written))))
perform-Ends (security_event_format enable) l =
    (refl, refl, (refl, λ h. h, ([], sym (append-nil l.written))))
perform-Ends (line level at message) l =
    elim (Bool-cases (ltb (level_rank level) (level_rank l.level))) [
      | inl e ↦ rw (e, log) (same-Ends returned l)
      | inr e ↦ rw (e, log) (hand-Keeps _ _ l)
    ]
perform-Ends (security_event event_type details) l = hand-Keeps _ _ l
perform-Ends (session_event id event_type details) l = hand-Keeps _ _ l
perform-Ends (error_line component message at) l = hand-Keeps _ _ l
perform-Ends (info_line component message at) l = hand-Keeps _ _ l
perform-Ends (debug_line component message at) l = hand-Keeps _ _ l
perform-Ends (fields_line level component message fields) l = hand-Keeps _ _ l
perform-Ends (session_creation id username ip service) l = hand-Keeps _ _ l
perform-Ends (session_termination id reason) l = hand-Keeps _ _ l
perform-Ends (access_denied username ip resource reason) l = hand-Keeps _ _ l
perform-Ends (security_violation ip type details) l = hand-Keeps _ _ l
perform-Ends (performance_metric operation duration unit) l = hand-Keeps _ _ l
perform-Ends (connection_stats active total) l = hand-Keeps _ _ l
perform-Ends (throughput bytes direction) l = hand-Keeps _ _ l
perform-Ends (event type username ip details) l = hand-Keeps _ _ l

Keeps-trans : (a b c : Logger) → Keeps a b → Keeps b c → Keeps a c
Keeps-trans a b c (e, n, (more, w)) (e', n', (more', w')) = (
  e' ∙ e,
  λ h. n' (n h),
  (more ++ more', w' ∙ ap (λ t. t ++ more') w ∙ append_assoc a.written more more'),
)

abbrev pub any_attempt : List Call → Bool
any_attempt [] = false
any_attempt (call ∷ calls) = if is_attempt call then true else any_attempt calls

-- The calls after one that ended.
after_Ends :
    (attempt : Bool) (ending : Ending) (calls : List Call) (l : Logger) (r : Run (Logger × Ending))
    → CallEnds attempt ending l r
    → ((l' : Logger) → Ends (any_attempt calls) (map ending_of calls) l' (perform_all calls l'))
    → Ends (if attempt then true else any_attempt calls) (ending ∷ map ending_of calls) l (
        r >>= λ (l', ended). perform_all calls l' >>= λ (l'', endings). done (l'', ended ∷ endings))
after_Ends attempt ending calls l deadlock e k = rw e refl
after_Ends attempt ending calls l (done (l', ended)) (e, same, kept) k =
    rw e (joined (perform_all calls l') (k l'))
  where
    joined :
        (r : Run (Logger × List Ending))
        → Ends (any_attempt calls) (map ending_of calls) l' r
        → Ends
            (any_attempt calls)
            (ending ∷ map ending_of calls)
            l
            (r >>= λ (l'', endings). done (l'', ended ∷ endings))
    joined (done (l'', endings)) (f, same', kept') =
        (f, rw (same, same') refl, Keeps-trans l l' l'' kept kept')
    joined deadlock f = f

-- Calls of a logger in a thread that does not hold its mutex come to an end if none of them reports
-- a log-in attempt, and deadlock if one does. If they come to an end, those have thrown that add a
-- sink whose constructor throws, and the others have returned; the level that the logger gives is
-- that from before, whatever levels were set; there is at most one console among the sinks if there
-- was at most one; and what was written before is still there, in front of what is new.
pub perform_all-Ends :
    (calls : List Call) (l : Logger)
    → Ends (any_attempt calls) (map ending_of calls) l (perform_all calls l)
unfolding perform_all
perform_all-Ends [] l = (refl, refl, same-Keeps l l refl refl refl)
perform_all-Ends (call ∷ calls) l =
    after_Ends (is_attempt call) (ending_of call) calls l (perform call l) (perform-Ends call l)
      (perform_all-Ends calls)
