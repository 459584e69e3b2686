-- ===== src/Machine/Reported.antt =====
-- internal/machine/state.go: which reports open the gate for file operations.
use makera_cnc_controller.Base.{
  ℕ, ◌≡◌, refl, sym, ap, ◌∙◌, Bool, true, not, ◌&&◌, Option, none, some, List, [], ◌∷◌, ◌++◌,
  append_assoc, append-nil, arith, ◌==◌, if◌then◌else◌, length, drop, Bool-cases, inl, inr,
}
use makera_cnc_controller.Base.Text.{Text, codes, text_eq_iff, has_prefix, trim_space}
use makera_cnc_controller.Base.Strings.{until, behind, split_from, split, ends_in, without_end}
use makera_cnc_controller.Base.Trim.{trim_space_idem}
use makera_cnc_controller.Machine.{can_run_file_ops, normalize_state}
use makera_cnc_controller.Machine.Halts.{parse_halt_reason}
use makera_cnc_controller.Machine.Status.{
  Status, empty_status, set_field, with_reason, field_value, parse_parts, is_unknown, split_report,
  parse_status_payload,
}

-- The first part of a split.
split_from-until :
    (sep : ℕ) (cur s : Text)
    → (rest : List Text) × (split_from sep cur s ≡ (cur ++ until (λ c. c == sep) s) ∷ rest)
unfolding split_from until
split_from-until sep cur [] = ([], ap (λ t. t ∷ []) (sym (append-nil cur)))
split_from-until sep cur (c ∷ s) = elim (Bool-cases (c == sep)) [
  | inl y ↦ (split_from sep [] s, rw y (ap (λ t. t ∷ split_from sep [] s) (sym (append-nil cur))))
  | inr n ↦
      let (rest, e) = split_from-until sep (cur ++ c ∷ []) s in
      (rest, rw n (e ∙ ap (λ t. t ∷ rest) (append_assoc cur (c ∷ []) (until (λ c. c == sep) s))))
]

gate-Idle : (s : Text) → can_run_file_ops (normalize_state s) ≡ true → trim_space s ≡ codes "Idle"
unfolding normalize_state can_run_file_ops
gate-Idle s h = ground (arith, text_eq_iff (trim_space s) (codes "Idle"))

-- What stands between the brackets of a report.
abbrev pub body_of : Text → Text
body_of raw = without_end b'>' (if has_prefix (codes "<") raw then drop 1 raw else raw)

module _ (Num : Type 0) (parse_float : Text → Option Num) (to_int : Num → Bool × ℕ)
    (is_zero : Num → Bool) where
  with_reason-state :
      (st : Status Num) (o : _) → (with_reason Num parse_float to_int is_zero st o).state ≡ st.state
  unfolding with_reason
  with_reason-state st none = refl
  with_reason-state st (some r) = refl

  set_field-state :
      (st : Status Num) (key val : Text)
      → (set_field Num parse_float to_int is_zero st key val).state ≡ st.state
  unfolding set_field
  set_field-state st key val = ground (arith, with_reason-state st (parse_halt_reason val))

  field_value-state :
      (st : Status Num) (key : Text) (o : Option Text)
      → (field_value Num parse_float to_int is_zero st key o).state ≡ st.state
  unfolding field_value
  field_value-state st key none = refl
  field_value-state st key (some val) =
      ground (arith, set_field-state st (trim_space key) (trim_space val))

  -- No field behind the first changes the state.
  parse_parts-state :
      (st : Status Num) (ps : List Text)
      → (parse_parts Num parse_float to_int is_zero st ps).state ≡ st.state
  unfolding parse_parts
  parse_parts-state st [] = refl
  parse_parts-state st (p ∷ ps) =
      let key = until (λ c. c == b':') (trim_space p) in
      let val = behind (λ c. c == b':') (trim_space p) in
      parse_parts-state (field_value Num parse_float to_int is_zero st key val) ps
      ∙ field_value-state st key val

  split_report-state :
      (bracketed : Bool) (first : Text) (rest : List Text) (st : Status Num)
      → split_report Num parse_float to_int is_zero bracketed (first ∷ rest) ≡ some st
      → st.state ≡ normalize_state (trim_space first)
  unfolding split_report
  split_report-state bracketed first rest st h =
      let st0 = normalize_state (trim_space first) in
      elim (Bool-cases (is_unknown st0 && not bracketed && length rest == 0)) [
        | inl bad ↦ let nothing = (rw bad at h) in cc
        | inr good ↦
            let same : some (parse_parts Num parse_float to_int is_zero (empty_status Num st0) rest)
                ≡ some st =
              (rw good at h) in
            let e : parse_parts Num parse_float to_int is_zero (empty_status Num st0) rest ≡ st =
              cc in
            sym (ap (λ x. x.state) e) ∙ parse_parts-state (empty_status Num st0) rest
      ]

  -- A report that opens the gate for file operations says Idle in its first part, and nothing that follows can make
  -- it do so.
  pub reported_idle :
      (payload : Text) (st : Status Num)
      → parse_status_payload Num parse_float to_int is_zero payload ≡ some st
      → can_run_file_ops st.state ≡ true
      → trim_space (until (λ c. c == b'|') (body_of (trim_space payload))) ≡ codes "Idle"
  unfolding parse_status_payload split
  reported_idle payload st h g =
      let body = body_of (trim_space payload) in
      let first = until (λ c. c == b'|') body in
      let bracketed =
        has_prefix (codes "<") (trim_space payload) && ends_in b'>' (trim_space payload) in
      let (rest, parts) = split_from-until b'|' [] body in
      let cut : split b'|' body ≡ first ∷ rest = parts in
      elim (Bool-cases (length body == 0)) [
        | inl z ↦ let nothing = (rw z at h) in cc
        | inr n ↦
            let report : split_report Num parse_float to_int is_zero bracketed (split b'|' body)
                ≡ some st =
              (rw n at h) in
            let e =
              split_report-state bracketed first rest st
                (ap (split_report Num parse_float to_int is_zero bracketed) (sym cut) ∙ report) in
            sym (trim_space_idem first)
            ∙ gate-Idle (trim_space first) (sym (ap can_run_file_ops e) ∙ g)
      ]
