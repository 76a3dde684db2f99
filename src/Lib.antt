-- ===== src/Lib.antt =====
-- The scripts of the server's pages, in ServeurHTTPS/DjangoDirectory/ServeurHTTP/static: the
-- admin's (admin/js) and the browsable API's (rest_framework/js). They run in a page, each by its
-- own event handlers, and share the document, the global `SelectBox`, `Calendar` and
-- `CalendarNamespace`, and the methods that core.js adds to `Date` and `String`.
--
-- Which file models what, each function under its name in the script in lower case:
-- - Core: admin/js/core.js from line 71, `strftime` and `strptime`. A date is the record `Moment` of
--   what the getters return; what the browser formats in its own way is a field of it. `strptime`
--   returns the fields that the UTC getters read, or `none` for an invalid date.
-- - Calendar: admin/js/calendar.js. `Calendar` is the record of the instance's month, year and
--   selection, and each `draw...` method is a function to the new state and the drawn `Table`.
--   The translation functions of the page are the fields of `Locale`.
-- - Actions: admin/js/actions.js. `State` is what the change list shows, `ready` is the set-up, and each
--   handler is a function on the state. `Step` lets a link be clicked only while it is visible.
-- - Shortcuts: admin/js/admin/DateTimeShortcuts.js, over Calendar and Core. A clock and a calendar are
--   records of their field, their box and the document's listener, and each handler is a function on one.
--   `Setup` is the scan of the inputs in `init`, with the numbers that tie the links to their fields.
-- - Inlines: admin/js/inlines.js, the formset. A form is the list of its elements' attributes.
--   `Layouts` adds the labels of stacked forms and the classes of rows.
-- - Collapse: admin/js/collapse.js. A click is the path of nodes from the link upwards.
-- - Popups: admin/js/admin/RelatedObjectLookups.js, over the boxes of SelectBox,
--   with the answers of admin/js/popup_response.js.
-- - Downcode and Urlify: admin/js/urlify.js, the maps with `downcode`, and `URLify` over them.
-- - AjaxForm: rest_framework/js/ajax-form.js, which submits become requests of the script and what they send.
-- - Explorer: rest_framework/docs/js/api.js. `Forms` makes the parameters of a request, `Answers` shows the
--   response and `Controls` are the choices of the page. Numbers and JSON are what `Readers` read.
-- - Prepopulate: admin/js/prepopulate.js, over Urlify.
-- - Csrf: rest_framework/js/csrf.js. The page's location and cookies are arguments.
-- - SelectBox: admin/js/SelectBox.js. `Page` is the store: which element an id names, the options of
--   each element, and the cache. `redisplay` writes `outerHTML`, so it gives the id a new element.
-- - SelectFilter: admin/js/SelectFilter2.js, over SelectBox: the end of `init`, its listeners and the key
--   handlers, with the four links as the record `ActiveLinks`.
-- - JsDate and Text model what the scripts use of the language's own `Date` and strings; Prelude has
--   numbers, lists and the shared names.
--
-- Numbers are exact. `Date` counts days from the year -400000 in JsDate, and years before that are
-- left out (`InRange`); the end of the range of `Date` is not modelled, nor is local time. The search for a
-- year goes through the 400 years of a cycle at most, and that for a month through 12, so the fuel
-- there is enough (JsDate.Civil: a day number's date counts back to the number). The number of a text
-- is read from digits only. `toLowerCase` and XRegExp's classes are parameters; the `sort` of arrays is
-- an insertion sort by the script's comparison, as it is stable. A select that drops down keeps one of
-- its options selected.
--
-- Not modelled: jQuery, select2, XRegExp, Bootstrap, prettify and coreapi, which are copies of other
-- projects' libraries; the minified files; layout metrics and the construction of elements in core.js
-- and DateTimeShortcuts.js; the prepopulated fields and selectors that inlines.js sets up in a new form, and the
-- listeners of RelatedObjectLookups.js, which are calls of jQuery and select2; and the
-- elements that `init` of SelectFilter2.js builds. The script default.js and those of a few lines
-- are outside the library, as are the programs in C, Java and Python.
pub mod Actions
pub mod AjaxForm
pub mod Calendar
pub mod Collapse
pub mod Core
pub mod Csrf
pub mod Downcode
pub mod Explorer
pub mod Inlines
pub mod JsDate
pub mod Popups
pub mod Prelude
pub mod Prepopulate
pub mod SelectBox
pub mod SelectFilter
pub mod Shortcuts
pub mod Text
pub mod Urlify
