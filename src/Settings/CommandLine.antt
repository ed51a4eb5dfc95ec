-- ===== src/Settings/CommandLine.antt =====
-- All settings that main of src/fsfuse.c gathers.
use fsfuse.Base.{
  ◌≡◌, refl, sym, Bool, true, false, ◌||◌, Option, none, some, List, if◌then◌else◌, ok, fault, Run,
  or_fault, ◌>>=◌, ◌∙◌, ◌≢◌,
}
use fsfuse.Base.Bytes.{Str, chars, str_eq}
use fsfuse.Base.Int.{pos}
use fsfuse.Settings.{
  integer, Layer, Stack, Doc, ConfigItem, Opt, FileOpt, StartAction, start_action_mount, no_options,
  cmdline_value, cmdline_layer, config_manager_add_from_cmdline, settings_parse_command_line,
  data_push, settings_tryget_config_file, config_file, gather_settings,
}
use fsfuse.Settings.Options.{
  is_debug, is_foreground, is_singlethreaded, is_port, given, action_of, one, flag, flagged,
  parse_options_lem, given_foreground,
}
use fsfuse.Settings.Layers.{
  over, Reads, push-Reads, Reads-of_same, file_layer, file-Reads, defaults-Reads,
}

-- The symbols that the command line sets, each to 1.
pub options_layer : Layer
options_layer symbol =
    if str_eq symbol (chars "proc_debug")
    then some (integer (pos 1))
    else if str_eq symbol (chars "proc_singlethread")
    then some (integer (pos 1))
    else if str_eq symbol (chars "proc_fg")
    then some (integer (pos 1))
    else none

layer_lem : (symbol : Str) → cmdline_layer 1 1 1 1 1 1 symbol ≡ options_layer symbol
unfolding cmdline_layer cmdline_value options_layer
layer_lem symbol = refl

true-ne-false_lem : true ≢ false
true-ne-false_lem e = cc

or_none : (a : Bool) → (a || false) ≡ a
or_none true = refl
or_none false = refl

-- What the command line leaves: what to start, and the settings.
pub record Gathered (opts : List Opt) (lower : Layer) (r : StartAction × Stack) : Type 0 where
  pub action : r.0 ≡ action_of opts start_action_mount
  pub settings : Reads (over options_layer lower) r.1

-- Without -d or without -s a variable is read that was never set. With both, all three settings of the
-- process are 1.
pub data Outcome (opts : List Opt) (lower : Layer) : Run (StartAction × Stack) → Type 0 where
  gathered :
      given is_debug opts ≡ true
      → given is_singlethreaded opts ≡ true
      → {r : StartAction × Stack} → Gathered opts lower r
      → Outcome opts lower (ok r)
  undebugged : given is_debug opts ≡ false → Outcome opts lower fault
  unsingle : given is_singlethreaded opts ≡ false → Outcome opts lower fault

-- The call behind the loop, by the options that are given.
pass_on : Bool → Bool → Bool → StartAction → Stack → Run (StartAction × Stack)
unfolding one flag
pass_on d f s rc mgr = do
  debug ← or_fault (one d)
  fg ← or_fault (one f)
  singlethread ← or_fault (one s)
  ok (rc, config_manager_add_from_cmdline (flag d) debug (flag f) fg (flag s) singlethread mgr)

pass_on-Outcome :
    (opts : List Opt) (lower : Layer) (mgr : Stack) (d f s : Bool)
    → Reads lower mgr
    → given is_debug opts ≡ d
    → given is_foreground opts ≡ f
    → given is_singlethreaded opts ≡ s
    → Outcome opts lower (pass_on d f s (action_of opts start_action_mount) mgr)
unfolding pass_on one flag config_manager_add_from_cmdline
pass_on-Outcome opts lower mgr false f s r ed ef es = undebugged ed
pass_on-Outcome opts lower mgr true false s r ed ef es =
    absurd (true-ne-false_lem (sym (given_foreground opts ed) ∙ ef))
pass_on-Outcome opts lower mgr true true false r ed ef es = unsingle es
pass_on-Outcome opts lower mgr true true true r ed ef es = gathered ed es (record {
  action = refl;
  settings =
      Reads-of_same (cmdline_layer 1 1 1 1 1 1) options_layer lower
        (data_push mgr (cmdline_layer 1 1 1 1 1 1)) layer_lem
        (push-Reads (cmdline_layer 1 1 1 1 1 1) lower mgr r);
})

pub settings_parse_command_line-Outcome :
    (opts : List Opt) (lower : Layer) (mgr : Stack)
    → Reads lower mgr
    → given is_port opts ≡ false
    → Outcome opts lower (settings_parse_command_line opts mgr)
unfolding settings_parse_command_line no_options flagged pass_on one flag
settings_parse_command_line-Outcome opts lower mgr r h =
    rw
      (
        parse_options_lem opts start_action_mount false false false h,
        or_none (given is_debug opts),
        or_none (given is_foreground opts),
        or_none (given is_singlethreaded opts),
      )
      (pass_on-Outcome opts lower mgr (given is_debug opts) (given is_foreground opts)
        (given is_singlethreaded opts) r refl refl refl)

-- What the file of -c says, where there is one.
pub named_layer : List ConfigItem → (Str → Option Doc) → Option Str → Layer
named_layer items files none = λ symbol. none
named_layer items files (some path) = file_layer items (files path)

config_file-Reads :
    (items : List ConfigItem) (files : Str → Option Doc) (path : Option Str) (lower : Layer)
    (mgr : Stack)
    → Reads lower mgr
    → Reads (over (named_layer items files path) lower) (config_file items files path mgr)
unfolding config_file named_layer over
config_file-Reads items files none lower mgr r = r
config_file-Reads items files (some path) lower mgr r = file-Reads items (files path) lower mgr r

-- The settings below the command line: the file of -c over ./fsfuserc, over ~/.fsfuserc, over
-- /etc/fsfuserc, over the defaults.
pub files_layer : List ConfigItem → Layer → (Str → Option Doc) → List FileOpt → Layer
files_layer items defaults files file_opts =
    over (named_layer items files (settings_tryget_config_file file_opts)) (
      over (file_layer items (files (chars "./fsfuserc"))) (
        over (file_layer items (files (chars "~/.fsfuserc")))
          (over (file_layer items (files (chars "/etc/fsfuserc"))) defaults)))

-- Given options without -p, and any reading of the command line by the parse for -c: where -d and -s are
-- among the options, main gathers their settings over those of the file of -c, over ./fsfuserc, over
-- ~/.fsfuserc, over /etc/fsfuserc, over the defaults, and a reader gets each setting from the first of
-- these that has it. Where one of the two is missing, main reads a variable that was never set.
pub gather_settings-Outcome :
    (items : List ConfigItem) (defaults : Layer) (files : Str → Option Doc)
    (file_opts : List FileOpt) (opts : List Opt)
    → given is_port opts ≡ false
    → Outcome opts
        (files_layer items defaults files file_opts)
        (gather_settings items defaults files file_opts opts)
unfolding gather_settings files_layer
gather_settings-Outcome items defaults files file_opts opts h =
    settings_parse_command_line-Outcome opts (files_layer items defaults files file_opts) _
      (config_file-Reads items files (settings_tryget_config_file file_opts) _ _ (
        file-Reads items (files (chars "./fsfuserc")) _ _ (
          file-Reads items (files (chars "~/.fsfuserc")) _ _
            (file-Reads items (files (chars "/etc/fsfuserc")) _ _ (defaults-Reads defaults)))))
      h
