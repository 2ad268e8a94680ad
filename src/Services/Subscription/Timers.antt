-- ===== src/Services/Subscription/Timers.antt =====
-- src/services/subscription.c: the sampling timer and the publishing timer.
pub mod Ticks
use micro_opcua.Base.{
  ℕ, zero, suc, ◌+◌, ◌-◌, ◌*◌, ◌/◌, ◌%◌, ◌^◌, Bool, true, false, ltb, leb, ◌==◌, if◌then◌else◌,
}
use micro_opcua.Base.Outcome.{Outcome, ok, fault}

-- ~(opcua_uint64_t)0
abbrev pub max_ms : ℕ
max_ms = 2 ^ 64 - 1

abbrev pub at_least_one : ℕ → ℕ
at_least_one interval = if interval == 0 then 1 else interval

-- Adding one interval, up to the greatest number.
abbrev pub add_interval : ℕ → ℕ → ℕ
add_interval next interval =
    if ltb (max_ms - interval) next then max_ms else (next + interval) % 2 ^ 64

abbrev pub add_steps : ℕ → ℕ → ℕ → ℕ
add_steps next interval steps =
    if ltb ((max_ms - next) / interval) steps
    then max_ms
    else (next + steps * interval % 2 ^ 64) % 2 ^ 64

abbrev pub catch_up : ℕ → ℕ → ℕ → ℕ
catch_up next interval now =
    if ltb (now - next) interval
    then add_interval next interval
    else add_steps next interval (((now - next) / interval + 1) % 2 ^ 64)

-- advance_sample_timer on item->next_sample_ms and item->sampling_interval_ms
pub advance_sample_timer : ℕ → ℕ → ℕ → ℕ
advance_sample_timer next interval now =
    if leb next now then catch_up next (at_least_one interval) now else next

-- do … while (sub->next_publish_ms <= now_ms), on fuel; running out of it is a fault.
publish_rounds : ℕ → ℕ → ℕ → ℕ → Outcome (Unit {0}) ℕ
publish_rounds zero next interval now = fault
publish_rounds (suc fuel) next interval now =
    let rest = publish_rounds fuel (next + interval) interval now in
    if ltb (max_ms - interval) next
    then ok max_ms tt
    else if leb (next + interval) now
    then rest
    else ok (next + interval) tt

-- advance_publish_timer on sub->next_publish_ms and sub->publishing_interval_ms; a round moves the timer
-- forward, so that as many rounds as there are milliseconds to catch up, and one, are enough.
pub advance_publish_timer : ℕ → ℕ → ℕ → Outcome (Unit {0}) ℕ
unfolding publish_rounds
advance_publish_timer next interval now =
    publish_rounds (suc (now - next)) next (at_least_one interval) now
