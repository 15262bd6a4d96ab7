-- ===== src/Storage/Local/Path.antt =====
-- storage/local/local.go: the spelling of paths, with the functions of Go's package path that it uses.
use chandlery.Base.{Bool, true, false, not, ◌&&◌, ◌||◌, List, [], ◌∷◌, ◌++◌, ◌==◌, if◌then◌else◌}
use chandlery.Base.Text.{Text, is_empty, codes, eq, trim_prefix}
use chandlery.Base.Text.Parts.{slash, split, join, trim}

unfoldable pub normalize : Text → Text
normalize p = trim_prefix p (slash ∷ [])

abbrev pub or_dot : Text → Text
or_dot [] = codes "."
or_dot (c ∷ s) = c ∷ s

unfoldable pub to_fs_path : Text → Text
to_fs_path p = or_dot (trim p slash)

-- A step back over the segments so far, the last one first: one of a rooted path stays at the root.
abbrev back : Bool → List Text → List Text
back rooted [] = if rooted then [] else codes ".." ∷ []
back rooted (s ∷ ss) = if eq s (codes "..") then codes ".." ∷ s ∷ ss else ss

abbrev clean_loop : Bool → List Text → List Text → List Text
clean_loop rooted [] done = done
clean_loop rooted (s ∷ ss) done = clean_loop rooted ss (
    if is_empty s || eq s (codes ".")
    then done
    else if eq s (codes "..")
    then back rooted done
    else s ∷ done)

abbrev reversed : List Text → List Text → List Text
reversed [] done = done
reversed (s ∷ ss) done = reversed ss (s ∷ done)

abbrev is_rooted : Text → Bool
is_rooted [] = false
is_rooted (c ∷ s) = c == slash

abbrev spelled : Bool → List Text → Text
spelled true ss = slash ∷ join ss slash
spelled false ss = or_dot (join ss slash)

-- path.Clean
unfoldable pub clean : Text → Text
unfolding join
clean p = spelled (is_rooted p) (reversed (clean_loop (is_rooted p) (split p slash) []) [])

-- The text up to the last slash, and with it.
abbrev up_to_slash : Text → Text
up_to_slash [] = []
up_to_slash (c ∷ s) =
    let rest = up_to_slash s in if is_empty rest && not (c == slash) then [] else c ∷ rest

-- path.Dir
unfoldable pub dir_of : Text → Text
dir_of p = clean (up_to_slash p)

-- path.Join of two parts, of which the second is not empty
unfoldable pub join_path : Text → Text → Text
join_path dir name = if is_empty dir then clean name else clean (dir ++ slash ∷ name)
