-- ===== src/Repair/Handler/Events.antt =====
-- Whether a pull request or a roll-back is among the events of the handler.
use ai_team_toolhub.Base.{
  ◌≡◌, refl, ◌∙◌, inl, inr, Bool, true, false, List, [], ◌∷◌, ◌++◌, any, any-append, Option, none,
  some, Result-cases, arith,
}
use ai_team_toolhub.CodeOps.{CodeError}
use ai_team_toolhub.Repair.{Outside}
use ai_team_toolhub.Repair.Attempts.{Attempt}
use ai_team_toolhub.Repair.Handler.{
  RunErr, is_success, Event, rolled_back, opened_pull_request, Progress, loop_events,
  rollback_events, closing_events, finish,
}

unfoldable pub opens : Event → Bool
opens (opened_pull_request pr) = true
opens _ = false

unfoldable pub rolls : Event → Bool
rolls rolled_back = true
rolls _ = false

-- Whether there is a pull request among the events, and whether there is a roll-back.
abbrev pub Flags : Bool → Bool → List Event → Type 0
Flags b c es = (any opens es ≡ b) × (any rolls es ≡ c)

pub Flags-append :
    {b c : Bool} (es fs : List Event) → Flags b c es → Flags false false fs → Flags b c (es ++ fs)
Flags-append es fs h k =
    (any-append opens es fs ∙ ground arith, any-append rolls es fs ∙ ground arith)

pub Flags-then :
    {b c : Bool} (es fs : List Event) → Flags false false es → Flags b c fs → Flags b c (es ++ fs)
Flags-then es fs h k =
    (any-append opens es fs ∙ ground arith, any-append rolls es fs ∙ ground arith)

pub loop_events-Flags : (attempts : List Attempt) → Flags false false (loop_events attempts)
unfolding loop_events opens rolls
loop_events-Flags [] = (refl, refl)
loop_events-Flags (a ∷ attempts) = loop_events-Flags attempts

closing_events-Flags :
    (dry_run : Bool) (e : Option RunErr) → Flags false false (closing_events dry_run e)
unfolding closing_events opens rolls
closing_events-Flags dry_run none = (refl, refl)
closing_events-Flags dry_run (some e) = (refl, refl)

pub rollback_events-Flags :
    (es : List CodeError) → Flags false true (rolled_back ∷ rollback_events es)
unfolding rollback_events opens rolls
rollback_events-Flags [] = (refl, refl)
rollback_events-Flags (e ∷ es) = (refl, refl)

pub finish-Flags :
    (o : Outside) (dry_run : Bool) (p : Progress) {b c : Bool}
    → Flags b c p.events
    → Flags b c (finish o dry_run p).events
unfolding finish
finish-Flags o dry_run p h = elim (Result-cases (o.record_call (is_success p.run_err))) [
  | inl (id, e) ↦
      rw (e, finish) (Flags-append p.events _ h (closing_events-Flags dry_run p.run_err))
  | inr (msg, e) ↦ rw (e, finish) h
]
