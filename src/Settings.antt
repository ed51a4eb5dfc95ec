-- ===== src/Settings.antt =====
-- src/config and the command line of src/fsfuse.c: layers of settings, the later over the earlier.
pub mod Layers
pub mod Options
pub mod CommandLine
mod Tests
use fsfuse.Base.{
  ℕ, zero, suc, ◌+◌, ◌-◌, ◌^◌, Bool, true, false, ◌||◌, Option, none, some, List, [], ◌∷◌, ◌++◌,
  map, ltb, ◌==◌, if◌then◌else◌, min, length, get_elem?, Run, fault, ok, ◌>>=◌, or_fault,
}
use fsfuse.Base.Bytes.{Str, chars, str_eq}
use fsfuse.Base.Int.{ℤ, pos, to_int}
use fsfuse.Versions.{skip_spaces, signed, magnitude}

-- A string of a collection is none where its node was no text.
pub data Value : Type 0 where
  integer : ℤ → Value
  string floating : Str → Value
  collection : List (Option Str) → Value

-- config_data_t: the value of each symbol that is present.
abbrev pub Layer : Type 0
Layer = Str → Option Value

-- struct _config_manager_t: the first layer is the lowest.
abbrev pub Stack : Type 0
Stack = List Layer

pub data_push : Stack → Layer → Stack
data_push mgr data_layer = mgr ++ (data_layer ∷ [])

-- `singleton` is none for NULL; `defaults` stands for the generated config_defaults_get.
pub config_singleton_get : Layer → Option Stack → Stack
unfolding data_push
config_singleton_get defaults none = data_push [] defaults
config_singleton_get defaults (some mgr) = mgr

value_or : Option Value → Run Value → Run Value
value_or none below = below
value_or (some value) below = ok value

-- The loop of a reader's function, from the layer below `i` down.
get_below : ℕ → Str → Stack → Run Value
unfolding value_or
get_below zero symbol datas = fault
get_below (suc i) symbol datas = do
  layer ← or_fault (get_elem? datas i)
  value_or (layer symbol) (get_below i symbol datas)

-- config_<symbol>
pub config_get : Str → Stack → Run Value
unfolding get_below
config_get symbol datas = get_below (length datas) symbol datas

pub data ItemType : Type 0 where
  item_string item_integer item_float item_string_collection : ItemType

-- config_xml_info_item_t, with its symbol for the offset.
pub record ConfigItem : Type 0 where
  pub symbol : Str
  pub type : ItemType
  pub xpath : Str

-- A document, as XPath reads it: the nodes of a path, none where it gives no set of nodes. A node
-- that is no text is none.
abbrev pub Doc : Type 0
Doc = Str → Option (List (Option Str))

one_text : Option (List (Option Str)) → Option Str
one_text none = none
one_text (some []) = none
one_text (some (first ∷ [])) = first
one_text (some (first ∷ second ∷ others)) = none

pub xpath_get : Str → Doc → Option Str
unfolding one_text
xpath_get xpath doc = one_text (doc xpath)

all_nodes : Option (List (Option Str)) → List (Option Str)
all_nodes none = []
all_nodes (some nodes) = nodes

pub xpath_get_array : Str → Doc → List (Option Str)
unfolding all_nodes
xpath_get_array xpath doc = all_nodes (doc xpath)

unsigned_value : Bool → Option (ℕ × Str) → ℕ
unsigned_value negative none = 0
unsigned_value false (some (value, rest)) = min value (2 ^ 64 - 1)
unsigned_value true (some (value, rest)) = if ltb value (2 ^ 64) then 2 ^ 64 - value else 2 ^ 64 - 1

-- strtoul(val, NULL, 0), kept in an int.
pub strtoul_int : Str → ℤ
unfolding unsigned_value
strtoul_int s = let t = signed (skip_spaces s) in to_int (unsigned_value t.0 (magnitude t.1))

map_option : (Str → Value) → Option Str → Option Value
map_option f none = none
map_option f (some s) = some (f s)

-- A collection is always present.
item_value : ItemType → Str → Doc → Option Value
unfolding xpath_get xpath_get_array strtoul_int map_option
item_value item_string xpath doc = map_option string (xpath_get xpath doc)
item_value item_integer xpath doc = map_option (λ s. integer (strtoul_int s)) (xpath_get xpath doc)
item_value item_float xpath doc = map_option floating (xpath_get xpath doc)
item_value item_string_collection xpath doc = some (collection (xpath_get_array xpath doc))

-- The loop over the items, which have a symbol each.
read_items : List ConfigItem → Doc → Layer
unfolding item_value
read_items [] doc symbol = none
read_items (item ∷ items) doc symbol =
    if str_eq item.symbol symbol
    then item_value item.type item.xpath doc
    else read_items items doc symbol

-- None is the return code 0: the file cannot be parsed.
pub config_loader_tryread_from_file : List ConfigItem → Option Doc → Option Layer
unfolding read_items
config_loader_tryread_from_file items none = none
config_loader_tryread_from_file items (some doc) = some (read_items items doc)

push_read : Stack → Option Layer → Stack
unfolding data_push
push_read mgr none = mgr
push_read mgr (some layer) = data_push mgr layer

pub config_manager_add_from_file : List ConfigItem → Option Doc → Stack → Stack
unfolding push_read config_loader_tryread_from_file
config_manager_add_from_file items doc mgr =
    push_read mgr (config_loader_tryread_from_file items doc)

-- Present unless the flag is 0.
unfoldable pub cmdline_value : ℕ → ℕ → Option Value
cmdline_value set value = if set == 0 then none else some (integer (pos value))

unfoldable pub cmdline_layer : ℕ → ℕ → ℕ → ℕ → ℕ → ℕ → Layer
unfolding cmdline_value
cmdline_layer debug_set debug singlethread_set singlethread fg_set fg symbol =
    if str_eq symbol (chars "proc_debug")
    then cmdline_value debug_set debug
    else if str_eq symbol (chars "proc_singlethread")
    then cmdline_value singlethread_set singlethread
    else if str_eq symbol (chars "proc_fg")
    then cmdline_value fg_set fg
    else none

pub config_manager_add_from_cmdline : ℕ → ℕ → ℕ → ℕ → ℕ → ℕ → Stack → Stack
unfolding data_push cmdline_layer
config_manager_add_from_cmdline debug_set debug singlethread_set singlethread fg_set fg mgr =
    data_push mgr (cmdline_layer debug_set debug singlethread_set singlethread fg_set fg)

-- What getopt_long gives for an argument.
pub data Opt : Type 0 where
  opt_c opt_t : Str → Opt
  opt_d opt_f opt_s opt_p opt_v opt_h opt_unknown opt_o : Opt

pub data StartAction : Type 0 where
  start_action_mount start_action_version start_action_usage : StartAction

-- What getopt_long gives for an argument where it knows -c only: this parse has its own option string,
-- and another reading of the same command line.
pub data FileOpt : Type 0 where
  file_c : Str → FileOpt
  file_unknown : FileOpt

-- The first name of a file.
pub settings_tryget_config_file : List FileOpt → Option Str
settings_tryget_config_file [] = none
settings_tryget_config_file (file_c path ∷ opts) = some path
settings_tryget_config_file (file_unknown ∷ opts) = settings_tryget_config_file opts

-- The local variables of settings_parse_command_line, none where they are not set.
pub record CmdLine : Type 0 where
  pub rc : StartAction
  pub proc_debug : Option ℕ
  pub proc_debug_set : ℕ
  pub proc_fg : Option ℕ
  pub proc_fg_set : ℕ
  pub proc_singlethread : Option ℕ
  pub proc_singlethread_set : ℕ

pub no_options : CmdLine
no_options = record {
  rc = start_action_mount;
  proc_debug = none;
  proc_debug_set = 0;
  proc_fg = none;
  proc_fg_set = 0;
  proc_singlethread = none;
  proc_singlethread_set = 0;
}

-- -p is asked for, but has no case. Traces are left out.
pub parse_option : Opt → CmdLine → Run CmdLine
parse_option (opt_c path) c = ok c
parse_option (opt_t area) c = ok c
parse_option opt_d c =
    ok (record c { proc_debug = some 1; proc_debug_set = 1; proc_fg = some 1; proc_fg_set = 1 })
parse_option opt_f c = ok (record c { proc_fg = some 1; proc_fg_set = 1 })
parse_option opt_s c = ok (record c { proc_singlethread = some 1; proc_singlethread_set = 1 })
parse_option opt_p c = fault
parse_option opt_v c = ok (record c { rc = start_action_version })
parse_option opt_h c = ok (record c { rc = start_action_usage })
parse_option opt_unknown c = ok (record c { rc = start_action_usage })
parse_option opt_o c = ok c

pub parse_options : List Opt → CmdLine → Run CmdLine
unfolding parse_option
parse_options [] c = ok c
parse_options (opt ∷ opts) c = do c' ← parse_option opt c; parse_options opts c'

-- The arguments are in the order of the call, which reads all six variables.
pub settings_parse_command_line : List Opt → Stack → Run (StartAction × Stack)
unfolding parse_options no_options config_manager_add_from_cmdline
settings_parse_command_line opts mgr = do
  c ← parse_options opts no_options
  debug ← or_fault c.proc_debug
  fg ← or_fault c.proc_fg
  singlethread ← or_fault c.proc_singlethread
  ok (
    c.rc,
    config_manager_add_from_cmdline c.proc_debug_set debug c.proc_fg_set fg c.proc_singlethread_set
        singlethread mgr,
  )

config_file : List ConfigItem → (Str → Option Doc) → Option Str → Stack → Stack
unfolding config_manager_add_from_file
config_file items files none mgr = mgr
config_file items files (some path) mgr = config_manager_add_from_file items (files path) mgr

-- The part of main that gathers the settings. `files` are the documents that can be parsed, and the two
-- lists are what the two parses read.
pub gather_settings :
    List ConfigItem
    → Layer
    → (Str → Option Doc)
    → List FileOpt
    → List Opt
    → Run (StartAction × Stack)
unfolding config_singleton_get config_manager_add_from_file settings_tryget_config_file config_file
    settings_parse_command_line
gather_settings items defaults files file_opts opts =
    let m0 = config_singleton_get defaults none in
    let m1 = config_manager_add_from_file items (files (chars "/etc/fsfuserc")) m0 in
    let m2 = config_manager_add_from_file items (files (chars "~/.fsfuserc")) m1 in
    let m3 = config_manager_add_from_file items (files (chars "./fsfuserc")) m2 in
    let m4 = config_file items files (settings_tryget_config_file file_opts) m3 in
    settings_parse_command_line opts m4
