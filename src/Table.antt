-- ===== src/Table.antt =====
-- `getTableStyle`, `renderTable` and the printers of go/utils.go. A table is what the writer of
-- the package go-pretty is given; how it draws the table is outside of this model.
use athenadriver.Base.{List, [], ◌∷◌, Option, none, some, if◌then◌else◌, Bytes, codes, bytes_eq}
use athenadriver.Csv.{Record, SqlRows}
use athenadriver.Decimal.{ℤ, pos}

pub data Style : Type 0 where
  style_default style_bold style_colored_bright style_colored_dark : Style
  style_colored_black_on_blue_white style_colored_black_on_cyan_white : Style
  style_colored_black_on_green_white style_colored_black_on_magenta_white : Style
  style_colored_black_on_yellow_white style_colored_black_on_red_white : Style
  style_colored_blue_white_on_black style_colored_cyan_white_on_black : Style
  style_colored_green_white_on_black style_colored_magenta_white_on_black : Style
  style_colored_red_white_on_black style_colored_yellow_white_on_black : Style
  style_double style_light style_rounded : Style

abbrev styles : List (Bytes × Style)
styles =
    (codes "StyleColoredBright", style_colored_bright)
    ∷ (codes "StyleBold", style_bold)
    ∷ (codes "StyleColoredDark", style_colored_dark)
    ∷ (codes "StyleColoredBlackOnBlueWhite", style_colored_black_on_blue_white)
    ∷ (codes "StyleColoredBlackOnCyanWhite", style_colored_black_on_cyan_white)
    ∷ (codes "StyleColoredBlackOnGreenWhite", style_colored_black_on_green_white)
    ∷ (codes "StyleColoredBlackOnMagentaWhite", style_colored_black_on_magenta_white)
    ∷ (codes "StyleColoredBlackOnYellowWhite", style_colored_black_on_yellow_white)
    ∷ (codes "StyleColoredBlackOnRedWhite", style_colored_black_on_red_white)
    ∷ (codes "StyleColoredBlueWhiteOnBlack", style_colored_blue_white_on_black)
    ∷ (codes "StyleColoredCyanWhiteOnBlack", style_colored_cyan_white_on_black)
    ∷ (codes "StyleColoredGreenWhiteOnBlack", style_colored_green_white_on_black)
    ∷ (codes "StyleColoredMagentaWhiteOnBlack", style_colored_magenta_white_on_black)
    ∷ (codes "StyleColoredRedWhiteOnBlack", style_colored_red_white_on_black)
    ∷ (codes "StyleColoredYellowWhiteOnBlack", style_colored_yellow_white_on_black)
    ∷ (codes "StyleDouble", style_double)
    ∷ (codes "StyleLight", style_light)
    ∷ (codes "StyleRounded", style_rounded)
    ∷ []

-- The style of the first case with the name.
case_style : List (Bytes × Style) → Bytes → Style
case_style [] name = style_default
case_style ((n, s) ∷ cases) name =
    let rest = case_style cases name in if bytes_eq n name then s else rest

unfoldable pub get_table_style : Bytes → Style
unfolding case_style
get_table_style name = case_style styles name

pub data Format : Type 0 where
  markdown table html csv : Format

-- `renderTable`
unfoldable pub render_format : Bytes → Format
render_format name =
    if bytes_eq name (codes "markdown")
    then markdown
    else if bytes_eq name (codes "table")
    then table
    else if bytes_eq name (codes "html")
    then html
    else csv

pub record Table : Type 0 where
  pub header : Option Record
  pub rows : List Record
  pub page_size : ℤ
  pub style : Style
  pub format : Format

abbrev names_header : List Bytes → Option Record
names_header [] = none
names_header (n ∷ ns) = some (n ∷ ns)

-- The rows behind their last `Next`, and the table, if one is printed.
unfoldable pub pretty_print_sql_rows :
    Option SqlRows → Bytes → Bytes → ℤ → Option SqlRows × Option Table
unfolding get_table_style render_format
pretty_print_sql_rows none style render page = (none, none)
pretty_print_sql_rows (some rows) style render page = (
  some (record rows { cells = [] }),
  some (record {
    header = none;
    rows = rows.cells;
    page_size = page;
    style = get_table_style style;
    format = render_format render;
  }),
)

unfoldable pub pretty_print_sql_cols_rows :
    Option SqlRows → Bytes → Bytes → ℤ → Option SqlRows × Option Table
unfolding get_table_style render_format
pretty_print_sql_cols_rows none style render page = (none, none)
pretty_print_sql_cols_rows (some rows) style render page = (
  some (record rows { cells = [] }),
  some (record {
    header = names_header rows.columns;
    rows = rows.cells;
    page_size = page;
    style = get_table_style style;
    format = render_format render;
  }),
)

unfoldable pub pretty_print_csv : Option SqlRows → Option SqlRows × Option Table
unfolding pretty_print_sql_cols_rows
pretty_print_csv rows =
    pretty_print_sql_cols_rows rows (codes "StyleDefault") (codes "csv") (pos 1024)

unfoldable pub pretty_print_md : Option SqlRows → Option SqlRows × Option Table
unfolding pretty_print_sql_cols_rows
pretty_print_md rows =
    pretty_print_sql_cols_rows rows (codes "StyleDefault") (codes "markdown") (pos 1024)

unfoldable pub pretty_print_fancy : Option SqlRows → Option SqlRows × Option Table
unfolding pretty_print_sql_cols_rows
pretty_print_fancy rows =
    pretty_print_sql_cols_rows rows (codes "StyleColoredGreenWhiteOnBlack") (codes "table")
      (pos 1024)
