-- ===== src/Router/Tests.antt =====
-- The theorems on src/PathRouter.cpp at concrete paths, and paths that are parsed.
use sql_fuse.Base.{codes, lacks_sound, refl, ◌≡◌}
use sql_fuse.Router.Types.{FileFormat}
use sql_fuse.Router.{parse, parse_parts}
use sql_fuse.Router.Split.{split_path, render}
use sql_fuse.Router.Layout.{Node, parts, parsed}
use sql_fuse.Router.Samples.{shop-IsDatabase, users-IsPlain, not-none}
use sql_fuse.Router.RoundTrip.{parse-render}
use sql_fuse.Router.Shape.{IsKnown, parse-IsKnown}

abbrev row_file : Node
row_file = Node.table_row_file (codes "shop") (codes "users") (codes "1") FileFormat.json

parse-render_example : parse (render (parts row_file)) ≡ parsed row_file
parse-render_example =
    parse-render row_file
      (shop-IsDatabase, users-IsPlain, (lacks_sound b'/' (codes "1") refl, not-none))

parse-IsKnown_example : IsKnown (parse (codes "/shop/tables/users/rows/1.json/extra"))
parse-IsKnown_example = parse-IsKnown (codes "/shop/tables/users/rows/1.json/extra")

-- What follows a row file in a path is not looked at.
parse_extra :
    parse (codes "/shop/tables/users/rows/1.json/extra")
    ≡ parse (codes "/shop/tables/users/rows/1.json")
unfolding parse split_path parse_parts
parse_extra = refl
