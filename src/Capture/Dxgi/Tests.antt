-- ===== src/Capture/Dxgi/Tests.antt =====
-- A session that loses its access and is opened again.
use digital_ghost.Prelude.{◌≡◌, refl, List, [], ◌∷◌, none, some, arith}
use digital_ghost.Capture.Dxgi.{
  ComCall, acquired, released, Session, OpenEnv, access_lost, resource, CaptureEnv, open_device,
  open_session, close_dxgi,
}
use digital_ghost.Capture.Dxgi.Counts.{acquired_count, released_count}
use digital_ghost.Capture.Dxgi.References.{captures, session-released}

abbrev opening : OpenEnv
opening = record {
  device = some (1, 2);
  dxgi_device = some 3;
  adapter = some 4;
  output = some 5;
  output1 = some 6;
  dupl = some 7;
  width = 2;
  height = 1;
}

abbrev session : Session
session = record { device = 1; ctx = 2; dupl = 7; width = 2; height = 1 }

abbrev opened : List ComCall
opened =
    released 3
    ∷ released 4
    ∷ released 5
    ∷ released 6
    ∷ acquired 7
    ∷ acquired 6
    ∷ acquired 5
    ∷ acquired 4
    ∷ acquired 3
    ∷ acquired 2
    ∷ acquired 1
    ∷ []

opens : open_session opening [] ≡ (opened, some session)
unfolding open_session open_device
opens = refl

abbrev lost_and_back : List (CaptureEnv × OpenEnv)
lost_and_back =
    (record { next = access_lost; texture = none; staging = none; map = none }, opening)
    ∷ (
      record {
        next = resource 8;
        texture = some 9;
        staging = some 10;
        map = some (8, 1 ∷ 2 ∷ 3 ∷ 4 ∷ 5 ∷ 6 ∷ 7 ∷ 8 ∷ []);
      },
      opening,
    )
    ∷ []

session-released_example :
    acquired_count 7
      (close_dxgi (captures lost_and_back (record { session = session; calls = opened }))).calls
    ≡ released_count 7
        (close_dxgi (captures lost_and_back (record { session = session; calls = opened }))).calls
session-released_example =
    session-released opening session opened lost_and_back 7 opens (omega arith)
