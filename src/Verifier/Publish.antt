-- ===== src/Verifier/Publish.antt =====
-- verifier/bundle.py: publish_directory, over the three places that it moves a directory between.
use fixrepro.Base.{
  ◌≡◌, ◌⊎◌, inl, inr, refl, Bool, true, false, not, ◌&&◌, Option, none, some, if◌then◌else◌,
  is_none, arith,
}
use fixrepro.Core.Errors.{Result, ok, raise, PyError, bundle_error, os_error}

-- A directory's tree, or nothing, at each place.
pub record Places (T : Type 0) : Type 0 where
  pub staged : Option T
  pub destination : Option T
  pub backup : Option T
  pub is_symlink : Bool

-- Which of the calls succeed: renaming the destination to the backup, the staged tree to the destination
-- and the backup to the destination, and removing the backup.
pub record Renames : Type 0 where
  pub sets_aside : Bool
  pub publishes : Bool
  pub restores : Bool
  pub removes : Bool

module _ {T : Type 0} where
  -- After the destination was set aside.
  unfoldable pub replace_destination : Renames → Places T → Result (Unit {0}) × Places T
  replace_destination renames p =
      if renames.publishes
      then (if renames.removes
          then (ok tt, record p { staged = none; destination = p.staged; backup = none })
          else (
            raise (os_error "could not remove the backup"),
            record p { staged = none; destination = p.staged },
          ))
      else if renames.restores
      then (
        raise (bundle_error "could not publish replacement bundle"),
        record p { destination = p.backup; backup = none },
      )
      else (raise (os_error "could not restore the backup"), p)

  unfoldable pub publish_directory : Bool → Renames → Places T → Result (Unit {0}) × Places T
  unfolding replace_destination
  publish_directory replace renames p =
      if not (is_none p.destination) && not replace
      then (raise (bundle_error "output directory already exists"), p)
      else if p.is_symlink
      then (raise (bundle_error "output directory may not be a symlink"), p)
      else if is_none p.destination
      then (if renames.publishes
          then (ok tt, record p { staged = none; destination = p.staged })
          else (raise (os_error "could not publish"), p))
      else if renames.sets_aside
      then replace_destination renames (record p { destination = none; backup = p.destination })
      else (raise (os_error "could not set the destination aside"), p)

  -- One of the two bundles is where it belongs.
  abbrev pub Kept : Bool → T → T → Result (Unit {0}) × Places T → Type 0
  Kept restores old new x =
      ((x.1.destination ≡ some new)
        × (((x.0 ≡ ok tt) × (x.1.backup ≡ none)) ⊎ ((e : PyError) × (x.0 ≡ raise e))))
      ⊎ (((e : PyError) × (x.0 ≡ raise e))
          × (x.1.staged ≡ some new)
          × ((x.1.destination ≡ some old) ⊎ ((x.1.backup ≡ some old) × (restores ≡ false))))

  either-Kept :
      (b restores : Bool) (old new : T) (x y : Result (Unit {0}) × Places T)
      → (b ≡ true → Kept restores old new x)
      → (b ≡ false → Kept restores old new y)
      → Kept restores old new (if b then x else y)
  either-Kept true restores old new x y hx hy = hx refl
  either-Kept false restores old new x y hx hy = hy refl

  replace-Kept :
      (renames : Renames) (p : Places T) (old new : T)
      → p.staged ≡ some new
      → p.backup ≡ some old
      → Kept renames.restores old new (replace_destination renames p)
  unfolding replace_destination
  replace-Kept renames p old new has aside =
      let published =
        either-Kept renames.removes renames.restores old new
          (ok tt, record p { staged = none; destination = p.staged; backup = none })
          (
            raise (os_error "could not remove the backup"),
            record p { staged = none; destination = p.staged },
          )
          (λ _. inl (has, inl (refl, refl)))
          (λ _. inl (has, inr (os_error "could not remove the backup", refl))) in
      either-Kept renames.publishes renames.restores old new _ _ (λ _. published)
        λ _.
          either-Kept renames.restores renames.restores old new _ _
            (λ _. inr ((bundle_error "could not publish replacement bundle", refl), has, inl aside))
            (λ lost. inr ((os_error "could not restore the backup", refl), has, inr (aside, lost)))

  -- Publishing never loses a bundle, whichever calls fail: over a destination that holds one, either
  -- the destination holds the staged bundle, with no backup left if the call returns, or it raises, the
  -- staged bundle is still there, and the old one is at the destination, or in the backup if even
  -- restoring it failed.
  pub publish_keeps_bundle :
      (replace : Bool) (renames : Renames) (p : Places T) (old new : T)
      → p.destination ≡ some old
      → p.staged ≡ some new
      → p.backup ≡ none
      → Kept renames.restores old new (publish_directory replace renames p)
  unfolding publish_directory
  publish_keeps_bundle replace renames p old new had has clean =
      let refused : (e : PyError) → Kept renames.restores old new (raise e, p) =
        λ e. inr ((e, refl), has, inl had) in
      either-Kept (not (is_none p.destination) && not replace) renames.restores old new _ _
        (λ _. refused _)
        λ _.
          either-Kept p.is_symlink renames.restores old new _ _ (λ _. refused _)
            λ _.
              either-Kept (is_none p.destination) renames.restores old new _ _ (λ e. ground arith)
                λ _.
                  either-Kept renames.sets_aside renames.restores old new _ _
                    (λ _.
                      replace-Kept renames (record p { destination = none; backup = p.destination })
                        old new has had)
                    (λ _. refused _)
