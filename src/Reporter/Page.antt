-- ===== src/Reporter/Page.antt =====
-- The parts of the HTML page that are the same for all reports, in `HtmlReporter::generate` of
-- src/reporter.cpp.
use mem_sentry.Base.{[], ◌∷◌}
use mem_sentry.Types.{Text, codes}
use mem_sentry.Printing.{write}

-- The head of the page, with its styles.
unfoldable pub page_head : Text
page_head = write (
    codes "<!DOCTYPE html>\n<html lang=\"en\">\n<head>\n"
    ∷ codes
        "<meta charset=\"UTF-8\">\n<meta name=\"viewport\" content=\"width=device-width, initial-scale=1.0\">\n"
    ∷ codes "<title>MemSentry - Heap Profile & Leak Report</title>\n"
    ∷ codes "<style>\n"
    ∷ codes
        "* { box-sizing: border-box; margin: 0; padding: 0; font-family: -apple-system, BlinkMacSystemFont, 'Segoe UI', Roboto, Helvetica, Arial, sans-serif; }\n"
    ∷ codes "body { background-color: #0d1117; color: #c9d1d9; padding: 24px; line-height: 1.5; }\n"
    ∷ codes
        "header { margin-bottom: 24px; display: flex; align-items: center; justify-content: space-between; border-bottom: 1px solid #30363d; padding-bottom: 16px; }\n"
    ∷ codes
        "h1 { font-size: 24px; color: #58a6ff; display: flex; align-items: center; gap: 8px; }\n"
    ∷ codes
        ".badge { padding: 4px 12px; border-radius: 12px; font-size: 12px; font-weight: 600; text-transform: uppercase; letter-spacing: 0.5px; }\n"
    ∷ codes ".badge-clean { background-color: #238636; color: #ffffff; }\n"
    ∷ codes ".badge-leak { background-color: #da3633; color: #ffffff; }\n"
    ∷ codes
        ".grid { display: grid; grid-template-columns: repeat(auto-fit, minmax(180px, 1fr)); gap: 16px; margin-bottom: 24px; }\n"
    ∷ codes
        ".card { background-color: #161b22; border: 1px solid #30363d; border-radius: 8px; padding: 16px; box-shadow: 0 2px 4px rgba(0,0,0,0.2); }\n"
    ∷ codes
        ".card-title { font-size: 12px; color: #8b949e; text-transform: uppercase; margin-bottom: 6px; font-weight: 600; }\n"
    ∷ codes ".card-value { font-size: 22px; font-weight: 700; color: #f0f6fc; }\n"
    ∷ codes
        ".section { background-color: #161b22; border: 1px solid #30363d; border-radius: 8px; padding: 20px; margin-bottom: 24px; }\n"
    ∷ codes
        ".section h2 { font-size: 16px; color: #f0f6fc; margin-bottom: 16px; border-bottom: 1px solid #21262d; padding-bottom: 8px; display: flex; align-items: center; justify-content: space-between; }\n"
    ∷ codes
        ".flamegraph-container { width: 100%; overflow-x: auto; background-color: #0d1117; border-radius: 6px; padding: 12px; border: 1px solid #30363d; }\n"
    ∷ codes
        ".histogram-bar { display: flex; align-items: center; margin-bottom: 8px; font-size: 13px; }\n"
    ∷ codes ".histogram-label { width: 140px; color: #8b949e; }\n"
    ∷ codes
        ".histogram-track { flex-grow: 1; background-color: #21262d; height: 16px; border-radius: 4px; overflow: hidden; margin: 0 12px; }\n"
    ∷ codes
        ".histogram-fill { height: 100%; background: linear-gradient(90deg, #1f6feb, #58a6ff); border-radius: 4px; }\n"
    ∷ codes ".histogram-val { width: 100px; text-align: right; color: #c9d1d9; }\n"
    ∷ codes "table { width: 100%; border-collapse: collapse; margin-top: 12px; font-size: 13px; }\n"
    ∷ codes
        "th { background-color: #21262d; color: #8b949e; text-align: left; padding: 10px 12px; border-bottom: 1px solid #30363d; font-weight: 600; }\n"
    ∷ codes "td { padding: 10px 12px; border-bottom: 1px solid #21262d; }\n"
    ∷ codes "tr:hover { background-color: #1c2128; cursor: pointer; }\n"
    ∷ codes
        ".tag-pill { background-color: #388bfd26; color: #58a6ff; padding: 2px 8px; border-radius: 6px; font-size: 11px; font-weight: 500; }\n"
    ∷ codes
        ".stacktrace { font-family: ui-monospace, SFMono-Regular, Menlo, Monaco, Consolas, monospace; font-size: 12px; color: #8b949e; padding: 12px 16px; background-color: #0d1117; display: none; }\n"
    ∷ codes ".stack-line { margin: 4px 0; }\n"
    ∷ codes ".stack-sym { color: #f0f6fc; font-weight: 500; }\n"
    ∷ codes ".stack-loc { color: #7ee787; }\n"
    ∷ codes
        "input[type=\"text\"] { background-color: #0d1117; border: 1px solid #30363d; border-radius: 6px; color: #c9d1d9; padding: 8px 12px; width: 320px; margin-bottom: 12px; outline: none; }\n"
    ∷ codes "input[type=\"text\"]:focus { border-color: #58a6ff; }\n"
    ∷ codes "</style>\n</head>\n<body>\n"
    ∷ [])

-- The heading, up to the badge.
unfoldable pub page_title : Text
page_title = write (
    codes "<header>\n"
    ∷ codes
        "  <h1><svg width=\"24\" height=\"24\" viewBox=\"0 0 24 24\" fill=\"currentColor\"><path d=\"M12 1L3 5v6c0 5.55 3.84 10.74 9 12 5.16-1.26 9-6.45 9-12V5l-9-4zm0 10.99h7c-.53 4.12-3.28 7.79-7 8.94V12H5V6.3l7-3.11v8.8z\"/></svg> MemSentry Enterprise Audit</h1>\n"
    ∷ [])

-- The search box, and the heads of the columns.
unfoldable pub table_head : Text
table_head = write (
    codes
      "  <input type=\"text\" id=\"searchBox\" placeholder=\"Filter by symbol, file, tag or address...\" onkeyup=\"filterTable()\">\n"
    ∷ codes "  <table id=\"leaksTable\">\n"
    ∷ codes
        "    <thead><tr><th>ID</th><th>Address</th><th>Size</th><th>Align</th><th>Tag</th><th>Thread</th><th>Frames</th></tr></thead>\n"
    ∷ codes "    <tbody>\n"
    ∷ [])

-- The script that shows a trace and filters the table.
unfoldable pub page_script : Text
page_script = write (
    codes "<script>\n"
    ∷ codes "function toggleTrace(id) {\n"
    ∷ codes "  var row = document.getElementById('trace-' + id);\n"
    ∷ codes "  row.style.display = (row.style.display === 'table-row') ? 'none' : 'table-row';\n"
    ∷ codes "}\n"
    ∷ codes "function filterTable() {\n"
    ∷ codes "  var query = document.getElementById('searchBox').value.toLowerCase();\n"
    ∷ codes "  var rows = document.querySelectorAll('#leaksTable tbody tr:not(.stacktrace)');\n"
    ∷ codes "  rows.forEach(function(row) {\n"
    ∷ codes "    row.style.display = row.innerText.toLowerCase().includes(query) ? '' : 'none';\n"
    ∷ codes "  });\n"
    ∷ codes "}\n"
    ∷ codes "</script>\n</body>\n</html>\n"
    ∷ [])
