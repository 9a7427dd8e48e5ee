-- ===== src/Controller/Bare.antt =====
-- A cluster in which no CRD is installed before the first apply.
use crd_bootstrap.Base.{
  String, List, [], ◌∷◌, ◌≡◌, refl, ap, ◌∙◌, true, Error, ok, err, All, pure, ◌>>=◌,
}
use crd_bootstrap.Base.Keeps.{
  Keeps, Keeps-bind, Keeps-then, Keeps-gets, Keeps-from, Keeps-pure, Keeps-deferring,
}
use crd_bootstrap.Base.Returns.{bind-ok}
use crd_bootstrap.Base.FilePath.{FilePath}
use crd_bootstrap.Platform.{Platform, OsCall}
use crd_bootstrap.Platform.World.{World, outside}
use crd_bootstrap.Platform.Os.{call, open_path, read_all, close_file}
use crd_bootstrap.Breaking.{OpenApi}
use crd_bootstrap.Controller.{Cluster, Crd, ManagerConfig}
use crd_bootstrap.Controller.Objects.{read_objects, detect_object, detect_changes}

module _ {P : Platform} {O : OpenApi} (C : Cluster P O) where
  -- In the states `Before` the apply no CRD is found; calls that do not write to the cluster lead
  -- from them to such states. An apply may end this.
  pub record IsBare (Before : P.Outside → Type 0) : Type 0 where
    pub absent :
        (name : String) (s : P.Outside)
        → Before s
        → (e : Error) × ((C.get_crd name s).0 ≡ err e) × (C.is_not_found e ≡ true)
    pub calls : (c : OsCall) (s : P.Outside) → Before s → Before (P.os_call c s).1
    pub temp_dirs : (s : P.Outside) → Before s → Before (P.temp_dir "crd" s).1
    pub config_maps :
        (name namespace : String) (s : P.Outside)
        → Before s
        → Before (P.get_config_map name namespace s).1
    pub managers : (k : ManagerConfig) (s : P.Outside) → Before s → Before (C.new_manager k s).1
    pub gets : (name : String) (s : P.Outside) → Before s → Before (C.get_crd name s).1

  -- The object can be read as a CRD.
  abbrev pub IsReadable : C.Object → Type 0
  IsReadable o =
      (content : String) × (C.marshal_object o ≡ ok content)
      × ((crd : Crd O.Schema) × (C.unmarshal_crd content ≡ ok crd))

module _ {P : Platform} {O : OpenApi} {C : Cluster P O} {Before : P.Outside → Type 0}
    (bare : IsBare C Before) where
  abbrev Intact : World P → Type 0
  Intact w = Before w.outside

  Keeps-call : (c : OsCall) → Keeps Intact (call c)
  unfolding outside
  Keeps-call c = record { at = λ w i. bare.calls c w.outside i }

  pub Keeps-read_objects : (path : FilePath) → Keeps Intact (read_objects C path)
  unfolding read_objects open_path close_file read_all
  Keeps-read_objects path = Keeps-then (Keeps-call _) (
      Keeps-bind (Keeps-gets _) λ node. Keeps-then (Keeps-from _) (
        Keeps-then (Keeps-call _) (
          Keeps-deferring (Keeps-call _) (
            Keeps-bind (Keeps-then (Keeps-call _) (Keeps-bind (Keeps-gets _) λ _. Keeps-from _))
              λ content. Keeps-bind (Keeps-from _) λ objects. Keeps-pure _))))

  detect_object-ok :
      (o : C.Object) (w : World P)
      → Intact w
      → IsReadable C o
      → (v : World P) × (detect_object C o w ≡ (ok [], v)) × Intact v
  unfolding detect_object outside ◌>>=◌
  detect_object-ok o w i (content, marshals, (crd, reads)) =
      let (e, missing, absent) = bare.absent crd.name w.outside i in
      (
        record w { outside = (C.get_crd crd.name w.outside).1 },
        rw (marshals, reads, missing, absent) refl,
        bare.gets crd.name w.outside i,
      )

  pub detect_changes-ok :
      (objects : List C.Object) (w : World P)
      → Intact w
      → All (IsReadable C) objects
      → (detect_changes C objects [] w).0 ≡ ok []
  unfolding detect_changes pure
  detect_changes-ok [] w i h = refl
  detect_changes-ok (o ∷ objects) w i h =
      let (v, e, j) = detect_object-ok o w i h.0 in
      ap (λ p. p.0) (bind-ok _ _ w v [] e refl) ∙ detect_changes-ok objects v j h.1
