-- ===== src/StateMachine.antt =====
-- The protocol state and the timer of src/state_machine.rs. An `Instant` is a number of
-- nanoseconds, and `Instant::now()` is the argument `now`.
use failover.Base.{ℕ, ◌+◌, Option, none, some}
use failover.Float.{F32, from_secs_f32}

pub data State : Type 0 where
  init backup master : State

pub data TimerType : Type 0 where
  null master_down adver : TimerType

pub data Event : Type 0 where
  startup null shutdown master_down : Event

pub record Timer : Type 0 where
  pub t_type : TimerType
  pub remaining_time : F32
  pub waiting_for : Option ℕ

pub record VirtualRouterMachine : Type 0 where
  pub timer : Timer
  pub state : State
  pub event : Event

-- `VirtualRouterMachine::default()`
unfoldable pub default : VirtualRouterMachine
default = record {
  timer = record { t_type = TimerType.null; remaining_time = 0; waiting_for = none };
  state = init;
  event = startup;
}

unfoldable pub set_advert_timer : ℕ → F32 → VirtualRouterMachine → VirtualRouterMachine
set_advert_timer now duration fsm = record fsm {
  timer = record {
    t_type = adver;
    remaining_time = duration;
    waiting_for = some (now + from_secs_f32 duration);
  };
}

unfoldable pub set_master_down_timer : ℕ → F32 → VirtualRouterMachine → VirtualRouterMachine
set_master_down_timer now duration fsm = record fsm {
  timer = record {
    t_type = TimerType.master_down;
    remaining_time = duration;
    waiting_for = some (now + from_secs_f32 duration);
  };
}

unfoldable pub disable_timer : VirtualRouterMachine → VirtualRouterMachine
disable_timer fsm = record fsm {
  timer = record { t_type = TimerType.null; remaining_time = 0; waiting_for = none };
}
