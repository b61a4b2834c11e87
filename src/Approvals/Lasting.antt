-- ===== src/Approvals/Lasting.antt =====
-- What any sequence of requests leaves true of the approvals.
use ai_team_toolhub.Base.{
  ℕ, ◌≡◌, refl, sym, ap, ◌∙◌, ◌⊎◌, inl, inr, false, ◌||◌, List, [], ◌∷◌, ◌++◌, none, some,
  Bool-cases, any, All, map, append_assoc,
}
use ai_team_toolhub.Text.{Text, codes, text_eq, is_empty, trim_space}
use ai_team_toolhub.Audit.{Approval, State}
use ai_team_toolhub.Audit.Tables.{update}
use ai_team_toolhub.Approvals.{Site}
use ai_team_toolhub.Approvals.Machine.{Resolution, text_of, Change, kept, requested, resolved}
use ai_team_toolhub.Approvals.Named.{Request, serve, serve-Change}

-- What a sequence of requests makes of a state.
pub data Reaches (site : Site) (first : State) : State → Type 0 where
  nothing : Reaches site first first
  served :
      {s : State} → Reaches site first s → (req : Request) → Reaches site first (serve site req s)

-- A row is as it was asked for, or it was decided on by somebody.
abbrev pub Sound : Approval → Type 0
Sound row =
    ((row.status ≡ codes "requested") × (row.approver ≡ none) × (row.approved_at ≡ none))
    ⊎ ((r : Resolution) × (name : Text) × (now : ℕ) × (row.status ≡ text_of r)
        × (row.approver ≡ some name)
        × (row.approved_at ≡ some now)
        × (is_empty (trim_space name) ≡ false))

-- No two rows have the same key.
abbrev pub Distinct : List Approval → Type 0
Distinct [] = Unit
Distinct (row ∷ rows) =
    (any (λ x. text_eq x.approval_id row.approval_id) rows ≡ false) × Distinct rows

module _ (id approver : Text) (now : ℕ) (r : Resolution) where
  abbrev decide_row : Approval → Approval
  decide_row x = record x { status = text_of r; approved_at = some now; approver = some approver }

  abbrev updated : List Approval → List Approval
  updated rows = update (λ x. text_eq x.approval_id id) decide_row rows

  update-Sound :
      (rows : List Approval)
      → is_empty (trim_space approver) ≡ false
      → All Sound rows
      → All Sound (updated rows)
  update-Sound [] named h = tt
  update-Sound (x ∷ rows) named h = elim (Bool-cases (text_eq x.approval_id id)) [
    | inl e ↦ rw e (inr (r, approver, now, refl, refl, refl, named), update-Sound rows named h.1)
    | inr e ↦ rw e (h.0, update-Sound rows named h.1)
  ]

  update-key :
      (key : Text) (rows : List Approval)
      → any (λ x. text_eq x.approval_id key) (updated rows)
        ≡ any (λ x. text_eq x.approval_id key) rows
  update-key key [] = refl
  update-key key (x ∷ rows) = elim (Bool-cases (text_eq x.approval_id id)) [
    | inl e ↦ rw e (ap (λ b. text_eq x.approval_id key || b) (update-key key rows))
    | inr e ↦ rw e (ap (λ b. text_eq x.approval_id key || b) (update-key key rows))
  ]

  update-Distinct : (rows : List Approval) → Distinct rows → Distinct (updated rows)
  update-Distinct [] h = tt
  update-Distinct (x ∷ rows) h = elim (Bool-cases (text_eq x.approval_id id)) [
    | inl e ↦ rw e (update-key x.approval_id rows ∙ h.0, update-Distinct rows h.1)
    | inr e ↦ rw e (update-key x.approval_id rows ∙ h.0, update-Distinct rows h.1)
  ]

-- What an approval is for: its key, its run and its scope.
abbrev pub subject : Approval → Text × Text × Text
subject row = (row.approval_id, row.run_id, row.scope)

update-subject :
    (id approver : Text) (now : ℕ) (r : Resolution) (rows : List Approval)
    → map subject (updated id approver now r rows) ≡ map subject rows
update-subject id approver now r [] = refl
update-subject id approver now r (x ∷ rows) = elim (Bool-cases (text_eq x.approval_id id)) [
  | inl e ↦ rw e (ap (λ l. subject x ∷ l) (update-subject id approver now r rows))
  | inr e ↦ rw e (ap (λ l. subject x ∷ l) (update-subject id approver now r rows))
]

Change-Sound : {rows after : List Approval} → Change rows after → All Sound rows → All Sound after
Change-Sound kept h = h
Change-Sound (requested row status nobody never free) h = (inl (status, nobody, never), h)
Change-Sound {rows = rows} (resolved id approver now r named) h =
    update-Sound id approver now r rows named h

Change-Distinct : {rows after : List Approval} → Change rows after → Distinct rows → Distinct after
Change-Distinct kept h = h
Change-Distinct (requested row status nobody never free) h = (free, h)
Change-Distinct {rows = rows} (resolved id approver now r named) h =
    update-Distinct id approver now r rows h

Change-subject :
    {rows after : List Approval}
    → Change rows after
    → (new : List (Text × Text × Text)) × (map subject after ≡ new ++ map subject rows)
Change-subject kept = ([], refl)
Change-subject (requested row status nobody never free) = (subject row ∷ [], refl)
Change-subject {rows = rows} (resolved id approver now r named) =
    ([], update-subject id approver now r rows)

-- From a table with distinct keys whose rows are sound, for instance the empty one, any sequence of
-- requests leads to such a table: an approval is "approved" or "rejected" only with a time and an
-- approver whose name is not blank, and one that is "requested" has neither. No row is ever removed,
-- and none changes its key, its run or its scope; the new ones come before the old ones.
pub approvals_stay_Sound :
    (site : Site) (first last : State)
    → Reaches site first last
    → All Sound first.approvals
    → Distinct first.approvals
    → All Sound last.approvals
      × Distinct last.approvals
      × (new : List (Text × Text × Text)) × (map subject last.approvals
          ≡ new ++ map subject first.approvals)
approvals_stay_Sound site first _ nothing sound distinct = (sound, distinct, [], refl)
approvals_stay_Sound site first _ (served {s = s} before req) sound distinct =
    let (s1, d1, new, q1) = approvals_stay_Sound site first s before sound distinct in
    let change = serve-Change site req s in
    let (more, q2) = Change-subject change in
    (
      Change-Sound change s1,
      Change-Distinct change d1,
      more ++ new,
      q2 ∙ ap (λ l. more ++ l) q1 ∙ sym (append_assoc more new (map subject first.approvals)),
    )
