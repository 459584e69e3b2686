-- ===== src/Protocol/Arguments.antt =====
-- internal/protocol/commands.go: the arguments of a file command reach the machine as they are.
use makera_cnc_controller.Base.{
  ℕ, ◌≡◌, ◌≢◌, refl, ap, ◌∙◌, false, ◌&&◌, [], ◌∷◌, ◌++◌, map, append_assoc, append-nil, arith, leb,
  ◌==◌, All,
}
use makera_cnc_controller.Base.Text.{Text, codes, is_space}
use makera_cnc_controller.Base.Strings.{fields_from, fields}
use makera_cnc_controller.Protocol.Escape.{
  slashed, escaper, escape, unescaper, unescape, rm_line, mv_line,
}

-- A byte of a path that survives: no backslash, none of the bytes 1 to 5 that stand for others on the wire, and no
-- space but the blank.
abbrev pub IsPlain : ℕ → Type 0
IsPlain c = ((c == 92) ≡ false) × ((leb 1 c && leb c 5) ≡ false) × ((leb 9 c && leb c 13) ≡ false)

unescape_byte : (c : ℕ) → IsPlain c → unescaper (escaper (slashed c)) ≡ c
unfolding unescaper escaper slashed
unescape_byte c h = ground arith

solid_byte : (c : ℕ) → IsPlain c → is_space (escaper (slashed c)) ≡ false
unfolding is_space escaper slashed
solid_byte c h = ground arith

unescape-escape : (s : Text) → All IsPlain s → unescape (escape s) ≡ s
unfolding unescape escape
unescape-escape [] h = refl
unescape-escape (c ∷ s) h = cc (unescape_byte c h.0, unescape-escape s h.1)

abbrev IsSolid : Text → Type 0
IsSolid s = All (λ c. is_space c ≡ false) s

escape-IsSolid : (s : Text) → All IsPlain s → IsSolid (escape s)
unfolding escape
escape-IsSolid [] h = tt
escape-IsSolid (c ∷ s) h = (solid_byte c h.0, escape-IsSolid s h.1)

-- A word is read up to the next blank.
fields_from-word :
    (cur w s : Text) → IsSolid w → fields_from cur (w ++ 32 ∷ s) ≡ fields_from (cur ++ w) (32 ∷ s)
unfolding fields_from
fields_from-word cur [] s h = rw (append-nil cur) refl
fields_from-word cur (c ∷ w) s h = rw h.0 (
    fields_from-word (cur ++ c ∷ []) w s h.1
    ∙ ap (λ t. fields_from t (32 ∷ s)) (append_assoc cur (c ∷ []) w))

pub fields-word :
    (c : ℕ) (w s : Text) → IsSolid (c ∷ w) → fields ((c ∷ w) ++ 32 ∷ s) ≡ (c ∷ w) ∷ fields s
unfolding fields is_space
fields-word c w s h = fields_from-word [] (c ∷ w) s h

-- The flag and the line's end.
abbrev pub flag_end : Text
flag_end = codes "-e" ++ (10 ∷ [])

flag : fields flag_end ≡ codes "-e" ∷ []
unfolding fields is_space
flag = refl

abbrev pub IsArgument : Text → Type 0
IsArgument s = (s ≢ []) × All IsPlain s

-- An escaped argument is read as one word.
argument :
    (path s : Text) → IsArgument path → fields (escape path ++ 32 ∷ s) ≡ escape path ∷ fields s
unfolding escape
argument [] s h = absurd (h.0 refl)
argument (d ∷ path) s h =
    fields-word (escaper (slashed d)) (map escaper (map slashed path)) s
      (escape-IsSolid (d ∷ path) h.1)

-- The machine, which splits a line at its spaces and decodes each word, reads from the commands rm and mv exactly
-- the paths that were given, spaces and shell characters included, for paths that are not empty and have no
-- backslash, no line end or tab and none of the bytes 1 to 5.
pub commands_arguments :
    (from to : Text)
    → IsArgument from
    → IsArgument to
    → (map unescape (fields (rm_line from)) ≡ codes "rm" ∷ from ∷ codes "-e" ∷ [])
      × (map unescape (fields (mv_line from to)) ≡ codes "mv" ∷ from ∷ to ∷ codes "-e" ∷ [])
unfolding rm_line mv_line is_space unescape unescaper
commands_arguments from to f t =
    let rm_words =
      fields-word 114 (109 ∷ []) (escape from ++ 32 ∷ flag_end) (refl, (refl, tt))
      ∙ ap (λ w. (114 ∷ 109 ∷ []) ∷ w)
          (argument from flag_end f ∙ ap (λ w. escape from ∷ w) flag) in
    let mv_words =
      fields-word 109 (118 ∷ []) (escape from ++ 32 ∷ (escape to ++ 32 ∷ flag_end))
        (refl, (refl, tt))
      ∙ ap (λ w. (109 ∷ 118 ∷ []) ∷ w)
          (argument from (escape to ++ 32 ∷ flag_end) f
            ∙ ap (λ w. escape from ∷ w) (argument to flag_end t ∙ ap (λ w. escape to ∷ w) flag)) in
    (
      ap (map unescape) rm_words
          ∙ ap (λ x. codes "rm" ∷ x ∷ codes "-e" ∷ []) (unescape-escape from f.1),
      ap (map unescape) mv_words
          ∙ ap (λ x. codes "mv" ∷ x ∷ unescape (escape to) ∷ codes "-e" ∷ [])
              (unescape-escape from f.1)
          ∙ ap (λ x. codes "mv" ∷ from ∷ x ∷ codes "-e" ∷ []) (unescape-escape to t.1),
    )
