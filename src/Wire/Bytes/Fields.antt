-- ===== src/Wire/Bytes/Fields.antt =====
-- Fields that stand one behind the other: all of them can be read back after they were written.
use sirius_scope.Prelude.{
  ℕ, ◌+◌, ◌*◌, ◌^◌, ◌≤◌, ◌<◌, ◌≡◌, ◌∙◌, inl, inr, List, [], ◌∷◌, ◌++◌, length, take, All, arith,
}
use sirius_scope.Wire.Bytes.{Buffer, get, Field, put, puts}
use sirius_scope.Wire.Bytes.Laws.{Apart, get-put_self, get-puts-Apart, get-take, length-put}

-- The fields lie in order in the range from `lo` to `hi`, and each value fits its field.
abbrev pub Within : ℕ → ℕ → List Field → Type 0
Within lo hi [] = lo ≤ hi
Within lo hi (f ∷ fs) =
    (lo ≤ f.at) × (f.value < 2 ^ (8 * f.width)) × (f.value < 2 ^ 64) × Within (f.at + f.width) hi fs

-- Every field reads as its value.
abbrev pub Holds : Buffer → List Field → Type 0
Holds input [] = Unit {0}
Holds input (f ∷ fs) = (get input f.at f.width ≡ f.value) × Holds input fs

pub Within-le : (lo hi : ℕ) (fs : List Field) → Within lo hi fs → lo ≤ hi
Within-le lo hi [] w = w
Within-le lo hi (f ∷ fs) w = omega (arith, Within-le (f.at + f.width) hi fs w.3)

pub Within-append :
    (lo mid hi : ℕ) (fs gs : List Field)
    → Within lo mid fs
    → Within mid hi gs
    → Within lo hi (fs ++ gs)
Within-append lo mid hi [] [] w v = omega arith
Within-append lo mid hi [] (g ∷ gs) w v = (omega arith, v.1, v.2, v.3)
Within-append lo mid hi (f ∷ fs) gs w v =
    (w.0, w.1, w.2, Within-append (f.at + f.width) mid hi fs gs w.3 v)

pub Within-above :
    (lo hi : ℕ) (fs : List Field) (at width : ℕ)
    → Within lo hi fs
    → at + width ≤ lo
    → All (Apart at width) fs
Within-above lo hi [] at width w h = tt
Within-above lo hi (f ∷ fs) at width w h =
    (inl (omega arith), Within-above (f.at + f.width) hi fs at width w.3 (omega arith))

pub Within-below :
    (lo hi : ℕ) (fs : List Field) (at width : ℕ)
    → Within lo hi fs
    → hi ≤ at
    → All (Apart at width) fs
Within-below lo hi [] at width w h = tt
Within-below lo hi (f ∷ fs) at width w h = (
  inr (omega (arith, Within-le (f.at + f.width) hi fs w.3)),
  Within-below (f.at + f.width) hi fs at width w.3 h,
)

pub puts-Holds :
    (lo hi : ℕ) (fs : List Field) (out : Buffer)
    → Within lo hi fs
    → hi ≤ length out
    → Holds (puts out fs) fs
unfolding puts
puts-Holds lo hi [] out w h = tt
puts-Holds lo hi (f ∷ fs) out w h = (
  get-puts-Apart (put out f.at f.value f.width) f.at f.width fs
        (Within-above (f.at + f.width) hi fs f.at f.width w.3 (omega arith))
      ∙ get-put_self out f.at f.value f.width (omega (arith, Within-le (f.at + f.width) hi fs w.3))
          w.1 w.2,
  puts-Holds (f.at + f.width) hi fs (put out f.at f.value f.width) w.3
      (omega (arith, length-put out f.at f.value f.width)),
)

pub Holds-take :
    (lo hi n : ℕ) (fs : List Field) (input : Buffer)
    → Within lo hi fs
    → hi ≤ n
    → Holds input fs
    → Holds (take n input) fs
Holds-take lo hi n [] input w h v = tt
Holds-take lo hi n (f ∷ fs) input w h v = (
  get-take n input f.at f.width (omega (arith, Within-le (f.at + f.width) hi fs w.3)) ∙ v.0,
  Holds-take (f.at + f.width) hi n fs input w.3 h v.1,
)

pub Holds-append :
    (input : Buffer) (fs gs : List Field) → Holds input (fs ++ gs) → Holds input fs × Holds input gs
Holds-append input [] gs v = (tt, v)
Holds-append input (f ∷ fs) gs v =
    let rest = Holds-append input fs gs v.1 in ((v.0, rest.0), rest.1)
