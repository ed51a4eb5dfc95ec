-- ===== src/Settings/Tests.antt =====
-- A command line with -d and -s, and a file that says more.
use fsfuse.Base.{none, some, [], ◌∷◌, ◌≡◌, refl, List, Option, if◌then◌else◌, false}
use fsfuse.Base.Bytes.{Str, chars, str_eq}
use fsfuse.Base.Int.{pos}
use fsfuse.Settings.{
  Layer, Doc, ConfigItem, item_integer, integer, FileOpt, file_c, file_unknown, opt_d, opt_s, opt_c,
  Opt, gather_settings,
}
use fsfuse.Settings.Options.{given, is_port}
use fsfuse.Settings.CommandLine.{Outcome, files_layer, gather_settings-Outcome}

abbrev items : List ConfigItem
items =
    record {
      symbol = chars "proc_fg";
      type = item_integer;
      xpath = chars "/config/process/foreground/text()";
    }
    ∷ []

abbrev defaults : Layer
defaults symbol = some (integer (pos 0))

abbrev files : Str → Option Doc
files path = if str_eq path (chars "rc") then some (λ xpath. some (some (chars "1") ∷ [])) else none

abbrev file_options : List FileOpt
file_options = file_c (chars "rc") ∷ file_unknown ∷ file_unknown ∷ []

abbrev options : List Opt
options = opt_c (chars "rc") ∷ opt_d ∷ opt_s ∷ []

no_port : given is_port options ≡ false
unfolding given is_port
no_port = refl

gather_settings-Outcome_example :
    Outcome options
      (files_layer items defaults files file_options)
      (gather_settings items defaults files file_options options)
gather_settings-Outcome_example =
    gather_settings-Outcome items defaults files file_options options no_port
