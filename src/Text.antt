-- ===== src/Text.antt =====
-- The parts of strings and path (Go's standard library) that the strategy uses, on code points.
use Prim.Native.Char.{code}
use hotload.Prelude.{
  ℕ, String, Bool, false, ◌&&◌, ◌||◌, List, [], ◌∷◌, ◌==◌, leb, if◌then◌else◌, str_eq,
}

-- unicode.IsSpace
unfoldable pub is_space : ℕ → Bool
is_space c =
    leb 9 c && leb c 13
    || c == 32
    || c == 0x85
    || c == 0xa0
    || c == 0x1680
    || leb 0x2000 c && leb c 0x200a
    || c == 0x2028
    || c == 0x2029
    || c == 0x202f
    || c == 0x205f
    || c == 0x3000

unfoldable pub trim_left : String → String
unfolding is_space
trim_left String.[] = ""
trim_left (String.◌∷◌ c s) =
    let rest = trim_left s in if is_space (code c) then rest else String.◌∷◌ c s

unfoldable pub trim_right : String → String
unfolding is_space
trim_right String.[] = ""
trim_right (String.◌∷◌ c s) =
    let rest = trim_right s in if str_eq rest "" && is_space (code c) then "" else String.◌∷◌ c rest

-- strings.TrimSpace
unfoldable pub trim_space : String → String
unfolding trim_left trim_right
trim_space s = trim_right (trim_left s)

-- The elements between slashes.
unfoldable pub elements : String → List String
elements String.[] = "" ∷ []
elements (String.◌∷◌ c s) = elim (elements s) [
  | [] ↦ "" ∷ []
  | e ∷ es ↦ if code c == b'/' then "" ∷ e ∷ es else String.◌∷◌ c e ∷ es
]

-- The elements kept so far, last first. `..` drops one; at a root it is dropped itself.
unfoldable pub resolve : Bool → List String → List String → List String
resolve rooted kept [] = kept
resolve rooted kept (e ∷ es) =
    resolve rooted
      (if str_eq e "" || str_eq e "."
        then kept
        else (if str_eq e ".."
            then (elim kept [
              | [] ↦ if rooted then [] else ".." ∷ []
              | k ∷ ks ↦ if str_eq k ".." then ".." ∷ k ∷ ks else ks
            ])
            else e ∷ kept))
      es

unfoldable pub append_text : String → String → String
append_text String.[] t = t
append_text (String.◌∷◌ c s) t = String.◌∷◌ c (append_text s t)

unfoldable pub join : List String → String → String
unfolding append_text
join [] tail = tail
join (e ∷ es) tail = join es (if str_eq tail "" then e else append_text e (append_text "/" tail))

unfoldable pub is_rooted : String → Bool
is_rooted String.[] = false
is_rooted (String.◌∷◌ c s) = code c == b'/'

-- path.Clean
unfoldable pub clean : String → String
unfolding elements resolve join is_rooted append_text
clean s =
    let kept = join (resolve (is_rooted s) [] (elements s)) "" in
    if is_rooted s then append_text "/" kept else (if str_eq kept "" then "." else kept)
