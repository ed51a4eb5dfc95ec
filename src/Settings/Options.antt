-- ===== src/Settings/Options.antt =====
-- What the options of src/fsfuse.c set.
use fsfuse.Base.{ℕ, ◌≡◌, refl, sym, Bool, true, false, ◌||◌, Option, none, some, List, [], ◌∷◌, ok}
use fsfuse.Settings.{
  Opt, opt_c, opt_t, opt_d, opt_f, opt_s, opt_p, opt_v, opt_h, opt_unknown, opt_o, StartAction,
  start_action_version, start_action_usage, CmdLine, parse_option, parse_options,
}

-- The options that turn debugging on.
pub is_debug : Opt → Bool
is_debug (opt_c p) = false
is_debug (opt_t a) = false
is_debug opt_d = true
is_debug opt_f = false
is_debug opt_s = false
is_debug opt_p = false
is_debug opt_v = false
is_debug opt_h = false
is_debug opt_unknown = false
is_debug opt_o = false

-- The options that ask for the foreground: -d does, too.
pub is_foreground : Opt → Bool
is_foreground (opt_c p) = false
is_foreground (opt_t a) = false
is_foreground opt_d = true
is_foreground opt_f = true
is_foreground opt_s = false
is_foreground opt_p = false
is_foreground opt_v = false
is_foreground opt_h = false
is_foreground opt_unknown = false
is_foreground opt_o = false

-- The option that asks for a single thread.
pub is_singlethreaded : Opt → Bool
is_singlethreaded (opt_c p) = false
is_singlethreaded (opt_t a) = false
is_singlethreaded opt_d = false
is_singlethreaded opt_f = false
is_singlethreaded opt_s = true
is_singlethreaded opt_p = false
is_singlethreaded opt_v = false
is_singlethreaded opt_h = false
is_singlethreaded opt_unknown = false
is_singlethreaded opt_o = false

-- The option without a case.
unfoldable pub is_port : Opt → Bool
is_port (opt_c p) = false
is_port (opt_t a) = false
is_port opt_d = false
is_port opt_f = false
is_port opt_s = false
is_port opt_p = true
is_port opt_v = false
is_port opt_h = false
is_port opt_unknown = false
is_port opt_o = false

unfoldable pub given : (Opt → Bool) → List Opt → Bool
given test [] = false
given test (opt ∷ opts) = test opt || given test opts

one_action : Opt → StartAction → StartAction
one_action (opt_c p) rc = rc
one_action (opt_t a) rc = rc
one_action opt_d rc = rc
one_action opt_f rc = rc
one_action opt_s rc = rc
one_action opt_p rc = rc
one_action opt_v rc = start_action_version
one_action opt_h rc = start_action_usage
one_action opt_unknown rc = start_action_usage
one_action opt_o rc = rc

-- The last of -v, -h and unknown options decides.
pub action_of : List Opt → StartAction → StartAction
unfolding one_action
action_of [] rc = rc
action_of (opt ∷ opts) rc = action_of opts (one_action opt rc)

unfoldable pub one : Bool → Option ℕ
one false = none
one true = some 1

unfoldable pub flag : Bool → ℕ
flag false = 0
flag true = 1

unfoldable pub flagged : StartAction → Bool → Bool → Bool → CmdLine
unfolding one flag
flagged rc d f s = record {
  rc = rc;
  proc_debug = one d;
  proc_debug_set = flag d;
  proc_fg = one f;
  proc_fg_set = flag f;
  proc_singlethread = one s;
  proc_singlethread_set = flag s;
}

parse_option_lem :
    (opt : Opt) (rc : StartAction) (d f s : Bool)
    → is_port opt ≡ false
    → parse_option opt (flagged rc d f s)
      ≡ ok (
          flagged
            (one_action opt rc)
            (is_debug opt || d)
            (is_foreground opt || f)
            (is_singlethreaded opt || s))
unfolding parse_option flagged one flag one_action is_debug is_foreground is_singlethreaded is_port
parse_option_lem (opt_c p) rc d f s h = refl
parse_option_lem (opt_t a) rc d f s h = refl
parse_option_lem opt_d rc d f s h = refl
parse_option_lem opt_f rc d f s h = refl
parse_option_lem opt_s rc d f s h = refl
parse_option_lem opt_p rc d f s h = cc
parse_option_lem opt_v rc d f s h = refl
parse_option_lem opt_h rc d f s h = refl
parse_option_lem opt_unknown rc d f s h = refl
parse_option_lem opt_o rc d f s h = refl

or_swap : (a b c : Bool) → (b || (a || c)) ≡ ((a || b) || c)
or_swap true true c = refl
or_swap true false c = refl
or_swap false true c = refl
or_swap false false c = refl

first_false : (a b : Bool) → (a || b) ≡ false → a ≡ false
first_false true b h = h
first_false false b h = refl

second_false : (a b : Bool) → (a || b) ≡ false → b ≡ false
second_false true b h = cc
second_false false b h = h

pub parse_options_lem :
    (opts : List Opt) (rc : StartAction) (d f s : Bool)
    → given is_port opts ≡ false
    → parse_options opts (flagged rc d f s)
      ≡ ok (
          flagged
            (action_of opts rc)
            (given is_debug opts || d)
            (given is_foreground opts || f)
            (given is_singlethreaded opts || s))
unfolding parse_options given action_of
parse_options_lem [] rc d f s h = refl
parse_options_lem (opt ∷ opts) rc d f s h =
    rw
      (
        parse_option_lem opt rc d f s (first_false (is_port opt) (given is_port opts) h),
        sym (or_swap (is_debug opt) (given is_debug opts) d),
        sym (or_swap (is_foreground opt) (given is_foreground opts) f),
        sym (or_swap (is_singlethreaded opt) (given is_singlethreaded opts) s),
      )
      (parse_options_lem opts (one_action opt rc) (is_debug opt || d) (is_foreground opt || f)
        (is_singlethreaded opt || s) (second_false (is_port opt) (given is_port opts) h))

-- Debugging asks for the foreground.
foreground_of_debug : (opt : Opt) → is_debug opt ≡ true → is_foreground opt ≡ true
unfolding is_debug is_foreground
foreground_of_debug (opt_c p) h = h
foreground_of_debug (opt_t a) h = h
foreground_of_debug opt_d h = h
foreground_of_debug opt_f h = refl
foreground_of_debug opt_s h = h
foreground_of_debug opt_p h = h
foreground_of_debug opt_v h = h
foreground_of_debug opt_h h = h
foreground_of_debug opt_unknown h = h
foreground_of_debug opt_o h = h

pub given_foreground :
    (opts : List Opt) → given is_debug opts ≡ true → given is_foreground opts ≡ true
unfolding given
given_foreground [] h = h
given_foreground (opt ∷ opts) h =
    either (is_debug opt) (is_foreground opt) (given is_debug opts) (given is_foreground opts) h
      (foreground_of_debug opt) (given_foreground opts)
  where
    either :
        (a b c d : Bool)
        → (a || c) ≡ true
        → (a ≡ true → b ≡ true)
        → (c ≡ true → d ≡ true)
        → (b || d) ≡ true
    either true b c d e f g = rw (f refl) refl
    either false true c d e f g = refl
    either false false c d e f g = g e
