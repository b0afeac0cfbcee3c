-- ===== src/Flamegraph/Svg/Nesting.antt =====
-- The tags of the SVG, in `generate_svg` of include/memsentry/profiler/flamegraph.hpp.
use mem_sentry.Base.{
  ℕ, ◌+◌, ◌-◌, ◌≡◌, refl, Bool, true, false, Bool-cases, inl, inr, List, [], ◌∷◌, ◌++◌, ◌==◌, All,
  if◌then◌else◌,
}
use mem_sentry.Types.{Text, codes}
use mem_sentry.Suppression.{is_empty}
use mem_sentry.Sampling.{Double, Doubles}
use mem_sentry.Printing.{Printer, decimal}
use mem_sentry.Escape.{escape_xml}
use mem_sentry.Escape.Xml.{IsInert, xml_read-escape_xml}
use mem_sentry.Flamegraph.{
  NodeData, FlameNode, flame_node, Children, no_child, child_then, total_bytes_of, get_max_depth,
}
use mem_sentry.Flamegraph.Svg.{
  cut_label, location, tooltip, node_label, node_group, render_node_svg, render_children,
  generate_svg,
}
use mem_sentry.Markup.{
  skip, skip_value, decimal-IsInert, PrintsInert, Scan, content, value, scan, through,
}

-- The name and the file of a node, which its title shows as they are, have no markup.
abbrev pub IsTitle : NodeData → Type 0
IsTitle d = All IsInert d.name × All IsInert d.file

unfoldable mutual
  pub AreTitles : FlameNode → Type 0
  AreTitles (flame_node d cs) = IsTitle d × AreTitlesIn cs

  pub AreTitlesIn : Children → Type 0
  AreTitlesIn no_child = Unit
  AreTitlesIn (child_then c cs) = AreTitles c × AreTitlesIn cs

location-content :
    (node : NodeData) (opens : List Text)
    → IsTitle node
    → scan (content, opens) (location node) ≡ (content, opens)
unfolding location scan
location-content node opens titled = elim (Bool-cases (is_empty node.file)) [
  | inl none_left ↦ rw none_left
  | inr named ↦ rw named (
      skip opens node.file _ titled.1
        (skip opens (decimal node.line) _ (decimal-IsInert node.line) refl))
]

-- Two parts, if they are written at all.
both-content :
    (skipped : Bool) (opens : List Text) (first rest : Text)
    → scan (content, opens) first ≡ (content, opens)
    → scan (content, opens) rest ≡ (content, opens)
    → scan (content, opens) (if skipped then [] else first ++ rest) ≡ (content, opens)
unfolding scan
both-content true opens first rest e h = refl
both-content false opens first rest e h = through (content, opens) first rest e h

in_rect :
    {s' : Scan} (opens : List Text) (t rest : Text)
    → All IsInert t
    → scan (value (codes "rect"), opens) rest ≡ s'
    → scan (value (codes "rect"), opens) (t ++ rest) ≡ s'
in_rect opens t rest = skip_value (codes "rect") opens t rest

module _ (fp : Doubles) (out : Printer) (inert : PrintsInert out) where
  tooltip-content :
      (total_root_bytes : ℕ) (node : NodeData) (opens : List Text)
      → IsTitle node
      → scan (content, opens) (tooltip fp out total_root_bytes node) ≡ (content, opens)
  unfolding tooltip scan
  tooltip-content total_root_bytes node opens titled = skip opens node.name _ titled.0 (
      skip opens (decimal node.total_bytes) _ (decimal-IsInert node.total_bytes) (
        skip opens _ _ (inert.1 1 _) (
          skip opens (decimal node.total_count) _ (decimal-IsInert node.total_count) (
            through (content, opens) (location node) [] (location-content node opens titled)
              refl))))

  node_label-content :
      (x y w row_height : Double) (name : Text) (opens : List Text)
      → scan (content, opens) (node_label fp out x y w row_height name) ≡ (content, opens)
  unfolding node_label scan
  node_label-content x y w row_height name opens =
      let cut = cut_label (fp.to_uint64 (fp.div w (fp.of_uint64 7))) name in
      skip_value (codes "text") opens _ _ (inert.0 _) (
        skip_value (codes "text") opens _ _ (inert.0 _)
          (skip (codes "text" ∷ opens) (escape_xml cut) _ (xml_read-escape_xml cut).1 refl))

  label-content :
      (shown : Bool) (x y w row_height : Double) (name : Text) (opens : List Text)
      → scan (content, opens) (if shown then node_label fp out x y w row_height name else [])
        ≡ (content, opens)
  unfolding scan
  label-content true x y w row_height name opens = node_label-content x y w row_height name opens
  label-content false x y w row_height name opens = refl

  node_group-content :
      (x w : Double) (depth max_depth : ℕ) (row_height : Double) (total_root_bytes : ℕ)
      (node : NodeData) (opens : List Text)
      → IsTitle node
      → scan
          (content, opens)
          (node_group fp out x w depth max_depth row_height total_root_bytes node)
        ≡ (content, opens)
  unfolding node_group scan
  node_group-content x w depth max_depth row_height total_root_bytes node opens titled =
      let y =
        fp.add (fp.mul (fp.of_uint64 (max_depth - depth)) (fp.add row_height (fp.of_uint64 2)))
          (fp.of_uint64 10) in
      let wide = fp.lt (fp.of_uint64 35) w in
      let g : List Text = codes "g" ∷ opens in
      let in_title = tooltip-content total_root_bytes node (codes "title" ∷ g) titled in
      skip_value (codes "g") opens (escape_xml node.name) _ (xml_read-escape_xml node.name).1 (
        through (content, codes "title" ∷ g) (tooltip fp out total_root_bytes node) _ in_title
          (in_rect g _ _ (inert.0 _) (
            in_rect g _ _ (inert.0 _) (
              in_rect g _ _ (inert.0 _) (
                in_rect g _ _ (inert.0 _) (
                  in_rect g _ _ (decimal-IsInert _) (
                    in_rect g _ _ (decimal-IsInert _) (
                      in_rect g _ _ (decimal-IsInert _) (
                        through (content, g)
                          (if wide then node_label fp out x y w row_height node.name else []) _
                          (label-content wide x y w row_height node.name g) refl)))))))))

  module _ (max_depth : ℕ) (row_height : Double) (total_root_bytes : ℕ) where
    mutual
      unfolding render_node_svg AreTitles scan

      render_node_svg-content :
          (c : FlameNode) (x w : Double) (depth : ℕ) (opens : List Text)
          → AreTitles c
          → scan
              (content, opens)
              (render_node_svg fp out max_depth row_height total_root_bytes c x w depth)
            ≡ (content, opens)
      render_node_svg-content (flame_node d cs) x w depth opens titled =
          both-content (fp.lt w fp.one) opens
            (node_group fp out x w depth max_depth row_height total_root_bytes d)
            (render_children fp out max_depth row_height total_root_bytes d w depth cs x)
            (node_group-content x w depth max_depth row_height total_root_bytes d opens titled.0)
            (render_children-content d w depth cs x opens titled.1)

      render_children-content :
          (d : NodeData) (w : Double) (depth : ℕ) (cs : Children) (child_x : Double)
          (opens : List Text)
          → AreTitlesIn cs
          → scan
              (content, opens)
              (render_children fp out max_depth row_height total_root_bytes d w depth cs child_x)
            ≡ (content, opens)
      render_children-content d w depth no_child child_x opens titled = refl
      render_children-content d w depth (child_then c cs) child_x opens titled =
          let child_w =
            fp.mul (fp.div (fp.of_uint64 (total_bytes_of c)) (fp.of_uint64 d.total_bytes)) w in
          let next_x = fp.add child_x child_w in
          both-content (d.total_bytes == 0) opens
            (render_node_svg fp out max_depth row_height total_root_bytes c child_x child_w
              (depth + 1))
            (render_children fp out max_depth row_height total_root_bytes d w depth cs next_x)
            (render_node_svg-content c child_x child_w (depth + 1) opens titled.0)
            (render_children-content d w depth cs next_x opens titled.1)

-- Between the tags of any page.
pub generate_svg-content :
    (fp : Doubles) (out : Printer) (root : FlameNode) (width row_height : Double)
    (opens : List Text)
    → PrintsInert out
    → AreTitles root
    → scan (content, opens) (generate_svg fp out root width row_height) ≡ (content, opens)
unfolding generate_svg scan
generate_svg-content fp out root width row_height opens inert titled =
    let svg : List Text = codes "svg" ∷ opens in
    let max_depth = get_max_depth root 0 in
    elim (Bool-cases (total_bytes_of root == 0)) [
      | inl nothing ↦ rw nothing
      | inr something ↦ rw something (
          skip_value (codes "svg") opens (out.general width) _ (inert.0 width) (
            skip_value (codes "svg") opens _ _ (inert.0 _) (
              through (content, svg)
                (render_node_svg fp out max_depth row_height (total_bytes_of root) root fp.zero
                  width 0)
                _
                (render_node_svg-content fp out inert max_depth row_height (total_bytes_of root)
                  root fp.zero width 0 svg titled)
                refl)))
    ]
