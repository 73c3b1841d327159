-- ===== src/Functions.antt =====
-- example/bjy-common/lib/function: how the other parts call functions and make text.
use webtransport_gos.Prelude.{
  Bool, true, false, ◌&&◌, ◌≢◌, Option, none, some, List, [], if◌then◌else◌,
}
use webtransport_gos.Util.{Text}
use webtransport_gos.Util.Literal.{codes}
use webtransport_gos.Util.String
use webtransport_gos.Util.Value.{Value, undefined, is_nullish}

-- The arguments of `execute`: one value that is no array, or an array.
pub data Arguments (A : Type 0) : Type 0 where
  one : A → Arguments A
  many : List A → Arguments A

-- `fn.apply(context, args)`, `fn.call(context, args)`, `fn(args)` and `fn()`.
pub data Call (C A : Type 0) : Type 0 where
  applies : Option C → List A → Call C A
  calls : C → Option A → Call C A
  calls_with : A → Call C A
  calls_bare : Call C A

-- `execute(fn, context, args)`: how `fn` is called, if it is a function; `none` is undefined.
unfoldable pub execute : {C A : Type 0} → Bool → Option C → Option (Arguments A) → Option (Call C A)
execute false context args = none
execute true context (some (many xs)) = some (applies context xs)
execute true (some c) (some (one a)) = some (calls c (some a))
execute true (some c) none = some (calls c none)
execute true none (some (one a)) = some (calls_with a)
execute true none none = some calls_bare

-- `isDef(target)`
unfoldable pub is_def : Value → Bool
is_def undefined = false
is_def _ = true

-- `toString(target, defaultValue)`; `text_of` is `target.toString()`.
unfoldable pub to_string : (Value → Text) → Value → Option Text → Text
to_string text_of target default_value =
    if is_nullish target then elim default_value [ none ↦ [] | some t ↦ t ] else text_of target

-- `isNative(target)`, of what is a function or not, with its text.
unfoldable pub is_native : Bool → Text → Bool
is_native is_function text = is_function && String.has text (codes "[native code]")

-- What `nextTick` is, by which of the two the runtime has.
pub data Tick : Type 0 where
  uses_immediate : Tick
  uses_channel : Tick
  uses_timeout : Tick

unfoldable pub next_tick : Bool → Bool → Tick
next_tick native_immediate native_channel =
    let first : Option Tick = if native_immediate then some uses_immediate else none in
    if native_channel then uses_channel else uses_timeout

-- `setImmediate` is never used, since what follows sets the variable again in both branches.
next_tick_never_immediate : (i c : Bool) → next_tick i c ≢ uses_immediate
unfolding next_tick
next_tick_never_immediate i true e = cc
next_tick_never_immediate i false e = cc
