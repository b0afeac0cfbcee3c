-- ===== src/Flamegraph/Svg.antt =====
-- The SVG of include/memsentry/profiler/flamegraph.hpp: `generate_svg` and `render_node_svg`. A small
-- double literal is the conversion of the integer that it denotes.
pub mod Nesting
pub mod Titles
use mem_sentry.Base.{
  ℕ, ◌+◌, ◌-◌, ◌*◌, ◌%◌, ◌^◌, bit_xor, ◌&&◌, [], ◌∷◌, ◌++◌, ltb, ◌==◌, if◌then◌else◌, length, take,
}
use mem_sentry.Types.{Text, codes}
use mem_sentry.Suppression.{is_empty}
use mem_sentry.Sampling.{Double, Doubles}
use mem_sentry.Printing.{Printer, decimal, write}
use mem_sentry.Escape.{escape_xml}
use mem_sentry.Flamegraph.{
  NodeData, FlameNode, flame_node, Children, no_child, child_then, total_bytes_of, get_max_depth,
}

-- The loop over the characters of a name.
unfoldable pub name_hash : ℕ → Text → ℕ
name_hash hash [] = hash
name_hash hash (c ∷ t) = name_hash (bit_xor hash c * 0x01000193 % 2 ^ 32) t

unfoldable pub hue : Text → ℕ
hue name = 200 + name_hash 0x811c9dc5 name % 50

-- The depth is that of a node, from 0 on.
abbrev pub sat : ℕ → ℕ
sat depth = 60 + depth * 7 % 30

abbrev pub light : ℕ → ℕ
light depth = 40 + depth * 5 % 25

-- A label that is too long for `max_chars` is cut.
unfoldable pub cut_label : ℕ → Text → Text
cut_label max_chars label =
    if ltb max_chars (length label) && ltb 3 max_chars
    then take (max_chars - 3) label ++ codes "..."
    else label

-- The end of a tooltip, where the file is known.
unfoldable pub location : NodeData → Text
location node =
    if is_empty node.file
    then []
    else write (codes " &#10;Location: " ∷ node.file ∷ codes ":" ∷ decimal node.line ∷ [])

module _ (fp : Doubles) (out : Printer) where
  unfoldable pub tooltip : ℕ → NodeData → Text
  tooltip total_root_bytes node =
      let pct =
        fp.mul (fp.div (fp.of_uint64 node.total_bytes) (fp.of_uint64 total_root_bytes))
          (fp.of_uint64 100) in
      write (
        node.name
        ∷ codes " &#10;Bytes: "
        ∷ decimal node.total_bytes
        ∷ codes " ("
        ∷ out.fixed 1 pct
        ∷ codes "%) &#10;Allocations: "
        ∷ decimal node.total_count
        ∷ location node
        ∷ [])

  -- The text of a node that is wide enough for one.
  unfoldable pub node_label : Double → Double → Double → Double → Text → Text
  node_label x y w row_height name = write (
      codes "  <text x=\""
      ∷ out.general (fp.add x (fp.of_uint64 4))
      ∷ codes "\" y=\""
      ∷ out.general (fp.sub (fp.add y row_height) (fp.of_uint64 6))
      ∷ codes "\">"
      ∷ escape_xml (cut_label (fp.to_uint64 (fp.div w (fp.of_uint64 7))) name)
      ∷ codes "</text>\n"
      ∷ [])

  -- The group of a node.
  unfoldable pub node_group : Double → Double → ℕ → ℕ → Double → ℕ → NodeData → Text
  node_group x w depth max_depth row_height total_root_bytes node =
      let y =
        fp.add (fp.mul (fp.of_uint64 (max_depth - depth)) (fp.add row_height (fp.of_uint64 2)))
          (fp.of_uint64 10) in
      write (
        codes "<g class=\"node\" data-name=\""
        ∷ escape_xml node.name
        ∷ codes "\">\n"
        ∷ codes "  <title>"
        ∷ tooltip total_root_bytes node
        ∷ codes "</title>\n"
        ∷ codes "  <rect x=\""
        ∷ out.general x
        ∷ codes "\" y=\""
        ∷ out.general y
        ∷ codes "\" width=\""
        ∷ out.general w
        ∷ codes "\" height=\""
        ∷ out.general row_height
        ∷ codes "\" "
        ∷ codes "fill=\"hsl("
        ∷ decimal (hue node.name)
        ∷ codes ", "
        ∷ decimal (sat depth)
        ∷ codes "%, "
        ∷ decimal (light depth)
        ∷ codes "%)\"/>\n"
        ∷ (if fp.lt (fp.of_uint64 35) w then node_label x y w row_height node.name else [])
        ∷ codes "</g>\n"
        ∷ [])

  unfoldable mutual
    -- A node at `x` of width `w`, and what is drawn above it.
    pub render_node_svg : ℕ → Double → ℕ → FlameNode → Double → Double → ℕ → Text
    render_node_svg max_depth row_height total_root_bytes (flame_node d cs) x w depth =
        let group = node_group x w depth max_depth row_height total_root_bytes d in
        let children = render_children max_depth row_height total_root_bytes d w depth cs x in
        if fp.lt w fp.one then [] else group ++ children

    -- The loop over the children of a node, from `child_x` on.
    pub render_children : ℕ → Double → ℕ → NodeData → Double → ℕ → Children → Double → Text
    render_children max_depth row_height total_root_bytes d w depth no_child child_x = []
    render_children max_depth row_height total_root_bytes d w depth (child_then c cs) child_x =
        let child_w =
          fp.mul (fp.div (fp.of_uint64 (total_bytes_of c)) (fp.of_uint64 d.total_bytes)) w in
        let child =
          render_node_svg max_depth row_height total_root_bytes c child_x child_w (depth + 1) in
        let rest =
          render_children max_depth row_height total_root_bytes d w depth cs
            (fp.add child_x child_w) in
        if d.total_bytes == 0 then [] else child ++ rest

  unfoldable pub generate_svg : FlameNode → Double → Double → Text
  generate_svg root width row_height =
      let max_depth = get_max_depth root 0 in
      let svg_height =
        fp.add (fp.mul (fp.of_uint64 (max_depth + 1)) (fp.add row_height (fp.of_uint64 2)))
          (fp.of_uint64 40) in
      if total_bytes_of root == 0
      then codes
          "<svg width=\"100%\" height=\"60\"><text x=\"20\" y=\"35\" fill=\"#8b949e\">No memory allocations to display in flamegraph</text></svg>"
      else write (
          codes "<svg class=\"flamegraph-svg\" viewBox=\"0 0 "
          ∷ out.general width
          ∷ codes " "
          ∷ out.general svg_height
          ∷ codes "\" width=\"100%\" "
          ∷ codes "xmlns=\"http://www.w3.org/2000/svg\">\n"
          ∷ codes "<style>\n"
          ∷ codes
              "  .node rect { stroke: #0d1117; stroke-width: 1px; rx: 3px; cursor: pointer; transition: opacity 0.15s; }\n"
          ∷ codes "  .node rect:hover { stroke: #58a6ff; stroke-width: 2px; opacity: 0.9; }\n"
          ∷ codes
              "  .node text { fill: #ffffff; font-family: -apple-system, BlinkMacSystemFont, 'Segoe UI', monospace; font-size: 11px; pointer-events: none; }\n"
          ∷ codes "</style>\n"
          ∷ render_node_svg max_depth row_height (total_bytes_of root) root fp.zero width 0
          ∷ codes "</svg>\n"
          ∷ [])
