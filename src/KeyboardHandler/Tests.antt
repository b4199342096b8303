-- ===== src/KeyboardHandler/Tests.antt =====
-- Examples of the keyboard.
use os.Prelude.{◌≡◌, refl, arith, [], ◌∷◌, some}
use os.Kernel.{Kernel, Outcome}
use os.Kernel.Examples.{locals, frame, alone-IsTree, booted}
use os.KeyboardHandler.{keyboard_handler}
use os.KeyboardHandler.Soundness.{IsSound, keyboard_handler-IsSound}

booted-IsSound : IsSound booted
booted-IsSound = record {
  tree = alone-IsTree 0 0;
  flags = record { two = λ down. refl; three = λ down. refl };
}

-- Alt and F2
keyboard_handler-IsSound_example :
    (o : Outcome) × (k' : Kernel) × (keyboard_handler 200 frame locals (56 ∷ 60 ∷ []) booted
      ≡ some (o, k'))
    × IsSound k'
keyboard_handler-IsSound_example =
    keyboard_handler-IsSound (56 ∷ 60 ∷ []) 200 frame locals booted (omega arith) booted-IsSound
