-- ===== src/Analyzer/Paths.antt =====
-- File paths (analyzer/lib/Utils/Path.cpp). A path is the list of its characters; a pointer into
-- one is the rest of it.
pub mod Strip
pub mod Backward
pub mod Components
pub mod Canonical
pub mod Compare
use arthas.Prelude.{
  ℕ, zero, suc, ◌+◌, ◌-◌, Bool, true, false, ◌&&◌, ◌||◌, ◌==◌, ltb, leb, not, ℤ, pos, pred_ℤ,
  is_negative, eq_ℤ, Option, none, some, [], ◌∷◌, ◌++◌, length, drop, if◌then◌else◌,
}
use mathlib.Core.List.{reverse}
use arthas.Analyzer.Strings.{String, str_equal}
use arthas.Reactor.Platform.{Run, returned, undefined, unfinished, bind}

abbrev pub max_path : ℕ
max_path = 512

-- `ISSLASH`.
abbrev pub is_slash : ℕ → Bool
is_slash c = c == 47

abbrev pub starts_slash : String → Bool
starts_slash [] = false
starts_slash (c ∷ s) = is_slash c

-- The loop of `stripname`: `str` is the third argument, `p` the second, `left` the first one.
-- At a slash before another one the inner loop moves on.
unfoldable pub strip_from : Bool → ℤ → String → String → String
strip_from every left p [] = p
strip_from every left p (c ∷ str) =
    let moves_on = not (is_slash c) || starts_slash str in
    let left' = if moves_on || every then left else pred_ℤ left in
    let p' = if moves_on || (not every && is_negative left') then p else str in
    let rest = strip_from every left' p' str in
    if not moves_on && eq_ℤ left' (pos 0) then p' else rest

unfoldable pub stripname : String → ℤ → String
unfolding strip_from
stripname name strips =
    if eq_ℤ strips (pos 0) then name else strip_from (is_negative strips) strips name name

unfoldable pub skip_slashes : String → String
skip_slashes [] = []
skip_slashes (c ∷ s) = let rest = skip_slashes s in if is_slash c then rest else c ∷ s

-- The characters from `start` to `end`, and those from `end` on.
unfoldable pub take_component : String → String × String
take_component [] = ([], [])
take_component (c ∷ s) =
    let (part, rest) = take_component s in if is_slash c then ([], c ∷ s) else (c ∷ part, rest)

-- The characters between `rpath` and `dest`, the last one first: `dest[-1]` is the head.
-- `while ((dest > rpath + 1) && (--dest)[-1] != '/');`
unfoldable pub back_up : String → String
back_up [] = []
back_up (c ∷ []) = c ∷ []
back_up (c ∷ d ∷ s) = let more = back_up (d ∷ s) in if is_slash d then d ∷ s else more

-- `if (dest[-1] != '/') --dest;`, which reads before the buffer when it is empty.
unfoldable pub to_beginning : String → Run String
to_beginning [] = undefined
to_beginning (c ∷ s) = returned (if is_slash c then c ∷ s else s)

-- `if (dest > rpath && dest[-1] != '/') *dest++ = '/';`
unfoldable pub with_slash : String → String
with_slash [] = []
with_slash (c ∷ s) = if is_slash c then c ∷ s else 47 ∷ c ∷ s

-- `.` and `..`.
abbrev pub is_dot : String → Bool
is_dot [] = false
is_dot (c ∷ []) = c == 46
is_dot (c ∷ d ∷ s) = false

abbrev pub is_dot_dot : String → Bool
is_dot_dot [] = false
is_dot_dot (c ∷ []) = false
is_dot_dot (c ∷ d ∷ []) = c == 46 && d == 46
is_dot_dot (c ∷ d ∷ e ∷ s) = false

-- One component. The buffer `resolved` has `max_path` characters; none is the `goto error` for
-- a name that is too long.
unfoldable pub put_component : String → String → Run (Option String)
unfolding back_up to_beginning with_slash
put_component part dest =
    if is_dot part
    then returned (some dest)
    else (if is_dot_dot part
        then bind (to_beginning (back_up dest)) (λ d. returned (some d))
        else (if leb max_path (length (with_slash dest) + length part)
            then returned none
            else returned (some (reverse part ++ with_slash dest))))

-- `if (dest > rpath + 1 && dest[-1] == '/') --dest;`
unfoldable pub without_slash : String → String
without_slash [] = []
without_slash (c ∷ []) = c ∷ []
without_slash (c ∷ d ∷ s) = if is_slash c then d ∷ s else c ∷ d ∷ s

-- The `for` loop from `start` on, and what follows it.
unfoldable pub walk_components : ℕ → String → String → Run (Option String)
walk_components zero start dest = unfinished
walk_components (suc fuel) start dest = elim (take_component (skip_slashes start)).0 [
  | [] ↦ returned (some (reverse (without_slash dest)))
  | c ∷ part ↦ bind (put_component (c ∷ part) dest) λ o. elim o [
    | none ↦ returned none
    | some d ↦ walk_components fuel (take_component (skip_slashes start)).1 d
  ]
]

-- `canonpath` into a buffer, on a name that is not null; none is `NULL`.
unfoldable pub canonpath : ℕ → String → Run (Option String)
unfolding walk_components
canonpath fuel [] = returned none
canonpath fuel (c ∷ name) =
    let walked = walk_components fuel (c ∷ name) (if is_slash c then 47 ∷ [] else []) in
    if c == 46 && starts_dot name then returned none else walked
  where
    starts_dot : String → Bool
    starts_dot [] = false
    starts_dot (d ∷ s) = d == 46

-- Whether two texts of one length agree.
unfoldable pub same_text : String → String → Bool
same_text [] t = true
same_text (c ∷ s) [] = false
same_text (c ∷ s) (d ∷ t) = c == d && same_text s t

-- The character before the place `i`.
abbrev pub slash_before : String → ℕ → Bool
slash_before s zero = false
slash_before s (suc i) = starts_slash (drop i s)

-- The rest of `pathendswith` once `canonpath` left its result in `PBUF`.
unfoldable pub ends_with : String → String → Bool
unfolding same_text
ends_with pbuf path2 =
    let i = length pbuf - length path2 in
    if ltb (length pbuf) (length path2)
    then false
    else (if starts_slash pbuf && ltb 0 i && not (starts_slash path2) && not (slash_before pbuf i)
        then false
        else same_text (drop i pbuf) path2)

abbrev pub on_path : (String → Bool) → Option String → Bool
on_path test none = false
on_path test (some pbuf) = test pbuf

unfoldable pub pathendswith : ℕ → String → String → Run Bool
unfolding canonpath ends_with
pathendswith fuel path1 path2 =
    bind (canonpath fuel path1) λ o. returned (on_path (λ pbuf. ends_with pbuf path2) o)

unfoldable pub pathneq : ℕ → String → String → ℤ → Run Bool
unfolding canonpath stripname
pathneq fuel path1 path2 n =
    bind (canonpath fuel path1)
      λ o. returned (on_path (λ pbuf. str_equal (stripname pbuf n) path2) o)
