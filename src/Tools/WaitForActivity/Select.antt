-- ===== src/Tools/WaitForActivity/Select.antt =====
-- The select of the loop: what is known of the case that it takes.
use mcp_symposium.Prelude.{◌≡◌, refl, Bool, true, false, ◌&&◌, Option, some, none}
use mcp_symposium.Tools.WaitForActivity.{
  Wake, context_done, deadline, signalled, polled, first_ready, take_case,
}

abbrev pub is_deadline : Wake → Bool
is_deadline context_done = false
is_deadline deadline = true
is_deadline signalled = false
is_deadline polled = false

-- what is known of a case that was taken
abbrev pub Took : Option Wake → Bool → Bool → Wake → Type 0
Took (some context_done) done due draw = done ≡ true
Took (some deadline) done due draw = due ≡ true
Took (some signalled) done due draw = (due && is_deadline draw) ≡ false
Took (some polled) done due draw = (due && is_deadline draw) ≡ false
Took none done due draw = (due && is_deadline draw) ≡ false

first_ready-Took :
    (draw : Wake) (done due signal tick : Bool)
    → Took (first_ready done due signal tick) done due draw
first_ready-Took draw true due signal tick = refl
first_ready-Took draw false true signal tick = refl
first_ready-Took draw false false true tick = refl
first_ready-Took draw false false false true = refl
first_ready-Took draw false false false false = refl

pub take_case-Took :
    (draw : Wake) (done due signal tick : Bool)
    → Took (take_case draw done due signal tick) done due draw
take_case-Took context_done true due signal tick = refl
take_case-Took context_done false due signal tick =
    first_ready-Took context_done false due signal tick
take_case-Took deadline done true signal tick = refl
take_case-Took deadline done false signal tick = first_ready-Took deadline done false signal tick
take_case-Took signalled done true true tick = refl
take_case-Took signalled done false true tick = refl
take_case-Took signalled done due false tick = first_ready-Took signalled done due false tick
take_case-Took polled done true signal true = refl
take_case-Took polled done false signal true = refl
take_case-Took polled done due signal false = first_ready-Took polled done due signal false
