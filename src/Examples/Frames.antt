-- ===== src/Examples/Frames.antt =====
-- The theorems on the wire format, applied to two frames.
use mathlib.Core.List.{cons-ne-nil}
use makera_cnc_controller.Base.Text.{Text, codes, trim_space, has_prefix}
use makera_cnc_controller.Base.Strings.{to_lower, until, is_digit, behind, fields}
use makera_cnc_controller.Protocol.Gcode.{normalize_line}
use makera_cnc_controller.Protocol.Escape.{unescape, rm_line, mv_line}
use makera_cnc_controller.Protocol.Paused.{
  Permitted, value_of, can_run_while_paused, scan_words, word_of, without_jog, paused_words,
}
use makera_cnc_controller.Protocol.Arguments.{IsPlain, commands_arguments}
use makera_cnc_controller.Base.{
  ℕ, ◌-◌, ◌≢◌, Bool, false, Option, some, All, map, ◌≡◌, refl, none, List, [], ◌∷◌, ◌++◌, take,
  drop, arith,
}
use makera_cnc_controller.Protocol.{encode}
use makera_cnc_controller.Protocol.Scanner.{parse_one, scan, push}
use makera_cnc_controller.Protocol.Progress.{scan_done}
use makera_cnc_controller.Protocol.RoundTrip.{encode_all, frames_of, push-encode_all}

-- Two messages, the second without a payload.
abbrev two_messages : List (ℕ × List ℕ)
two_messages = (0xA1, 63 ∷ []) ∷ (0xB3, []) ∷ []

-- Noise, and the start of a frame.
abbrev noise : List ℕ
noise = 1 ∷ 2 ∷ 0x86 ∷ 0x68 ∷ 0 ∷ []

scan_done_example : let p = parse_one (scan 6 noise).rest in (p.frame ≡ none) × (p.consumed ≡ 0)
scan_done_example = scan_done 6 noise (omega arith)

-- The first read ends inside the first frame, the second inside a third.
push-encode_all_example :
    push (take 4 (encode_all two_messages)) (drop 4 (encode_all two_messages) ++ (0x86 ∷ []))
    ≡ (frames_of two_messages, 0x86 ∷ [])
unfolding encode_all encode parse_one
push-encode_all_example =
    push-encode_all two_messages (take 4 (encode_all two_messages))
      (drop 4 (encode_all two_messages) ++ (0x86 ∷ [])) (0x86 ∷ []) (omega arith, (omega arith, tt))
      refl record { no_frame = refl; no_drop = refl; small = omega arith }

-- ParseFloat and int on one digit.
abbrev one_digit : Text → Option (Bool × ℕ)
one_digit (c ∷ []) = some (false, c - b'0')
one_digit _ = none

paused_words_example : Permitted one_digit b'g' (value_of (codes "1 x5"))
unfolding can_run_while_paused scan_words word_of normalize_line without_jog to_lower trim_space
    has_prefix value_of until is_digit behind
paused_words_example =
    paused_words one_digit (codes "G1 X5") [] b'g' (codes "1 x5") refl refl refl refl

commands_arguments_example :
    (map unescape (fields (rm_line (codes "/sd/a b.nc")))
      ≡ codes "rm" ∷ codes "/sd/a b.nc" ∷ codes "-e" ∷ [])
    × (map unescape (fields (mv_line (codes "/sd/a b.nc") (codes "/sd/c?.nc")))
        ≡ codes "mv" ∷ codes "/sd/a b.nc" ∷ codes "/sd/c?.nc" ∷ codes "-e" ∷ [])
commands_arguments_example =
    commands_arguments (codes "/sd/a b.nc") (codes "/sd/c?.nc") (solid_name 47 _, plain_ab)
      (solid_name 47 _, plain_c)
  where
    solid_name : (c : ℕ) (s : Text) → c ∷ s ≢ []
    solid_name c s h = absurd (cons-ne-nil c s h)

    plain_ab : All IsPlain (codes "/sd/a b.nc")
    plain_ab = ground arith

    plain_c : All IsPlain (codes "/sd/c?.nc")
    plain_c = ground arith
