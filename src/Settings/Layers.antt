-- ===== src/Settings/Layers.antt =====
-- The settings that a reader of src/config gets from a stack of layers.
use fsfuse.Base.{
  ℕ, zero, suc, ◌<◌, ◌≤◌, ◌≡◌, refl, ap, ◌∙◌, Option, none, some, List, [], ◌∷◌, ◌++◌, length,
  length-append, get_elem?, fault, or_fault, arith,
}
use fsfuse.Base.Bytes.{Str}
use fsfuse.Settings.{
  Value, Layer, Stack, Doc, ConfigItem, data_push, value_or, get_below, config_get,
  config_singleton_get, push_read, config_manager_add_from_file, config_loader_tryread_from_file,
  read_items,
}

-- The value of the upper layer, where it has one.
unfoldable pub over : Layer → Layer → Layer
over upper lower symbol = go (upper symbol) (lower symbol)
  where
    go : Option Value → Option Value → Option Value
    go none below = below
    go (some value) below = some value

-- A reader gets the settings of this layer, and fails an assert for what it has not.
pub Reads : Layer → Stack → Type 0
Reads layer mgr = (symbol : Str) → config_get symbol mgr ≡ or_fault (layer symbol)

get_last : (mgr : Stack) (layer : Layer) → get_elem? (mgr ++ (layer ∷ [])) (length mgr) ≡ some layer
get_last [] layer = refl
get_last (x ∷ mgr) layer = get_last mgr layer

get_before :
    (mgr : Stack) (layer : Layer) (i : ℕ)
    → i < length mgr
    → get_elem? (mgr ++ (layer ∷ [])) i ≡ get_elem? mgr i
get_before [] layer i lt = absurd (omega (arith, lt))
get_before (x ∷ mgr) layer zero lt = refl
get_before (x ∷ mgr) layer (suc i) lt = get_before mgr layer i (omega (arith, lt))

below_same :
    (symbol : Str) (mgr : Stack) (layer : Layer) (i : ℕ)
    → i ≤ length mgr
    → get_below i symbol (mgr ++ (layer ∷ [])) ≡ get_below i symbol mgr
unfolding get_below
below_same symbol mgr layer zero le = refl
below_same symbol mgr layer (suc i) le =
    rw
      (
        get_before mgr layer i (omega (arith, le)),
        below_same symbol mgr layer i (omega (arith, le)),
      )
      refl

length-push : (mgr : Stack) (layer : Layer) → length (mgr ++ (layer ∷ [])) ≡ suc (length mgr)
length-push mgr layer = omega (arith, length-append mgr (layer ∷ []))

config_get-data_push :
    (symbol : Str) (mgr : Stack) (layer : Layer)
    → config_get symbol (data_push mgr layer) ≡ value_or (layer symbol) (config_get symbol mgr)
unfolding config_get data_push get_below
config_get-data_push symbol mgr layer =
    rw
      (
        length-push mgr layer,
        get_last mgr layer,
        below_same symbol mgr layer (length mgr) (omega arith),
      )
      refl

value_or-over :
    (upper lower : Layer) (symbol : Str)
    → value_or (upper symbol) (or_fault (lower symbol)) ≡ or_fault (over upper lower symbol)
unfolding value_or over
value_or-over upper lower symbol = by_upper (upper symbol) (lower symbol)
  where
    by_upper :
        (u l : Option Value) → value_or u (or_fault l) ≡ or_fault (over (λ s. u) (λ s. l) symbol)
    by_upper none l = refl
    by_upper (some v) l = refl

-- A layer that is pushed stands over the others.
pub push-Reads :
    (upper lower : Layer) (mgr : Stack)
    → Reads lower mgr
    → Reads (over upper lower) (data_push mgr upper)
unfolding Reads
push-Reads upper lower mgr r symbol =
    config_get-data_push symbol mgr upper
    ∙ ap (value_or (upper symbol)) (r symbol)
    ∙ value_or-over upper lower symbol

-- What a file says: nothing where it cannot be parsed.
pub file_layer : List ConfigItem → Option Doc → Layer
file_layer items none symbol = none
file_layer items (some doc) symbol = read_items items doc symbol

pub file-Reads :
    (items : List ConfigItem) (doc : Option Doc) (lower : Layer) (mgr : Stack)
    → Reads lower mgr
    → Reads (over (file_layer items doc) lower) (config_manager_add_from_file items doc mgr)
unfolding config_manager_add_from_file config_loader_tryread_from_file push_read file_layer Reads
    over
file-Reads items none lower mgr r = r
file-Reads items (some doc) lower mgr r = push-Reads (read_items items doc) lower mgr r

-- The generated defaults are the lowest layer.
pub defaults-Reads : (defaults : Layer) → Reads defaults (config_singleton_get defaults none)
unfolding config_singleton_get data_push Reads config_get get_below value_or
defaults-Reads defaults symbol = by_value (defaults symbol)
  where
    by_value : (v : Option Value) → value_or v fault ≡ or_fault v
    by_value none = refl
    by_value (some v) = refl

pub Reads-of_same :
    (upper upper' lower : Layer) (mgr : Stack)
    → ((symbol : Str) → upper symbol ≡ upper' symbol)
    → Reads (over upper lower) mgr
    → Reads (over upper' lower) mgr
unfolding Reads over
Reads-of_same upper upper' lower mgr same r symbol =
    r symbol ∙ ap or_fault (sym_over (upper symbol) (upper' symbol) (same symbol))
  where
    sym_over :
        (u v : Option Value) → u ≡ v → over (λ s. u) lower symbol ≡ over (λ s. v) lower symbol
    sym_over u v e = ap (λ o. over (λ s. o) lower symbol) e
