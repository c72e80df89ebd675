-- ===== src/Init/Tests/Files.antt =====
-- A file of properties that android2.1_init/init/property_service.c reads.
use demonstratortool.Base.{◌≡◌, List, [], ◌∷◌, arith, All, codes, starts_with, is_space}
use demonstratortool.Init.World.{done}
use demonstratortool.Init.Load.{load_properties, set_all}
use demonstratortool.Init.Load.Settings.{
  Line, assign, comment, IsLine, text_lines, pairs, load_properties-text_lines,
}
use demonstratortool.Init.Tests.Given.{device, boot_world}

abbrev build_prop : List Line
build_prop =
    comment (codes " ") (codes " begin")
    ∷ assign (codes "  ") (codes "ro.build.id") (codes "\t") (codes " ") (codes "FRF91 a=b")
        (codes " \r")
    ∷ assign [] (codes "net.bt") [] [] [] []
    ∷ []

build_prop-IsLine : All IsLine build_prop
unfolding is_space starts_with
build_prop-IsLine = ground arith

load_properties-text_lines_example :
    load_properties device done
      (codes " # begin\n  ro.build.id\t= FRF91 a=b \r\nnet.bt=\n")
      boot_world
    ≡ set_all device done
        ((codes "ro.build.id", codes "FRF91 a=b") ∷ (codes "net.bt", []) ∷ [])
        boot_world
unfolding text_lines pairs
load_properties-text_lines_example =
    load_properties-text_lines device done build_prop boot_world build_prop-IsLine
