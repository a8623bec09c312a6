-- ===== src/Emerge/Options.antt =====
-- Which options of a request reach `emerge`, and by which way.
use mathlib.Core.List.{Memᴰ}
use remerge.Prelude.{
  Bool, true, false, not, List, [], ◌∷◌, ◌++◌, All, All-mem, any, keep_if, ◌==◌, mem_append_left,
  mem_append_right, mem_append_cases, mem_of_keep_if, mem_keep_if, arith, ◌≡◌, ◌↔◌, ◌⊎◌, inl, inr,
  ok,
}
use remerge.Prelude.Text.{Text, codes, text_beq, text_beq_iff, strip_first}
use remerge.Types.Workorder.{Workorder}
use remerge.Atom.{validate_atom, is_package_char}
use remerge.Emerge.{base_args, dropped_args, is_dropped, build_emerge_args, build_emerge_invocation}

-- The command line, by where an argument comes from.
mem-build_emerge_invocation :
    (w : Workorder) (cmd arg : Text)
    → Memᴰ arg (build_emerge_invocation w cmd).1 ↔ (
        Memᴰ arg base_args ⊎ (Memᴰ arg w.emerge_args × (is_dropped arg ≡ false)) ⊎ Memᴰ arg w.atoms)
unfolding build_emerge_invocation
mem-build_emerge_invocation w cmd arg = (to, from)
  where
    kept : Text → Bool
    kept a = not (is_dropped a)

    to_base :
        Memᴰ arg (base_args ++ keep_if kept w.emerge_args)
        → Memᴰ arg base_args
          ⊎ (Memᴰ arg w.emerge_args × (is_dropped arg ≡ false))
          ⊎ Memᴰ arg w.atoms
    to_base m = elim (mem_append_cases base_args (keep_if kept w.emerge_args) m) [
      | inl b ↦ inl b
      | inr k ↦
          let (there, holds) = mem_of_keep_if kept w.emerge_args k in
          inr (inl (there, ground arith))
    ]

    to :
        Memᴰ arg (build_emerge_invocation w cmd).1
        → Memᴰ arg base_args
          ⊎ (Memᴰ arg w.emerge_args × (is_dropped arg ≡ false))
          ⊎ Memᴰ arg w.atoms
    to m = elim (mem_append_cases (build_emerge_args w) w.atoms m) [
      | inl l ↦ to_base l
      | inr r ↦ inr (inr r)
    ]

    from :
        (Memᴰ arg base_args
          ⊎ (Memᴰ arg w.emerge_args × (is_dropped arg ≡ false))
          ⊎ Memᴰ arg w.atoms)
        → Memᴰ arg (build_emerge_invocation w cmd).1
    from (inl b) =
        mem_append_left (build_emerge_args w) w.atoms
          (mem_append_left base_args (keep_if kept w.emerge_args) b)
    from (inr (inl (m, h))) = mem_append_left (build_emerge_args w) w.atoms (
        mem_append_right base_args (keep_if kept w.emerge_args)
          (mem_keep_if kept w.emerge_args (rw h) m))
    from (inr (inr r)) = mem_append_right (build_emerge_args w) w.atoms r

dropped-accepted : All (λ d. validate_atom d ≡ ok tt) dropped_args
unfolding validate_atom is_package_char strip_first
dropped-accepted = ground arith

any-mem : (arg : Text) (xs : List Text) → Memᴰ arg xs → any (λ d. text_beq arg d) xs ≡ true
any-mem arg [] m = elim m [ ]
any-mem arg (x ∷ xs) (Memᴰ.head e) = rw ((text_beq_iff arg x).1 e)
any-mem arg (x ∷ xs) (Memᴰ.tail m) = ground (arith, any-mem arg xs m)

mem-is_dropped : (arg : Text) → Memᴰ arg dropped_args → is_dropped arg ≡ true
unfolding is_dropped
mem-is_dropped arg m = any-mem arg dropped_args m

-- Every option that is dropped from the options of a request is an accepted atom too, and as an
-- atom of the request it does reach the command line.
pub dropped_atom_reaches :
    (w : Workorder) (cmd arg : Text)
    → Memᴰ arg dropped_args
    → Memᴰ arg w.atoms
    → (validate_atom arg ≡ ok tt)
      × (is_dropped arg ≡ true)
      × Memᴰ arg (build_emerge_invocation w cmd).1
dropped_atom_reaches w cmd arg d m = (
  All-mem (λ a. validate_atom a ≡ ok tt) dropped_args dropped-accepted d,
  mem-is_dropped arg d,
  (mem-build_emerge_invocation w cmd arg).1 (inr (inr m)),
)

-- With the first fourteen of these options `emerge` does not build: it only looks, or removes, or
-- updates something else. The last four the worker settles otherwise.
abbrev pub forbidden : List Text
forbidden =
    (codes "--pretend"
      ∷ codes "-p"
      ∷ codes "--info"
      ∷ codes "--search"
      ∷ codes "-s"
      ∷ codes "--searchdesc"
      ∷ codes "-S"
      ∷ [])
    ++ (codes "--depclean"
        ∷ codes "--unmerge"
        ∷ codes "-C"
        ∷ codes "--deselect"
        ∷ codes "--rage-clean"
        ∷ codes "--sync"
        ∷ codes "--config"
        ∷ [])
    ++ (codes "--getbinpkg" ∷ codes "-g" ∷ codes "-N" ∷ codes "-u" ∷ [])

abbrev pub is_forbidden : Text → Bool
is_forbidden arg = any (λ d. text_beq arg d) forbidden

abbrev pub starts_with_dash : Text → Bool
starts_with_dash [] = false
starts_with_dash (c ∷ s) = c == b'-'
