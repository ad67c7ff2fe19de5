-- ===== src/Event/Labels.antt =====
-- The labels of errors, requests and events in event/event.c.
pub mod Distinct
use Prim.Native.String.{String}
use xcb_util.Prelude.{ℕ, List, [], ◌∷◌, Option, some, none, get_elem?}

unfoldable pub label_error : List String
label_error =
    "Success" ∷ "BadRequest" ∷ "BadValue" ∷ "BadWindow" ∷ "BadPixmap" ∷ "BadAtom" ∷ "BadCursor"
    ∷ "BadFont" ∷ "BadMatch" ∷ "BadDrawable" ∷ "BadAccess" ∷ "BadAlloc" ∷ "BadColor" ∷ "BadGC"
    ∷ "BadIDChoice" ∷ "BadName" ∷ "BadLength" ∷ "BadImplementation" ∷ []

unfoldable pub label_request : List String
label_request =
    "no request" ∷ "CreateWindow" ∷ "ChangeWindowAttributes" ∷ "GetWindowAttributes"
    ∷ "DestroyWindow" ∷ "DestroySubwindows" ∷ "ChangeSaveSet" ∷ "ReparentWindow" ∷ "MapWindow"
    ∷ "MapSubwindows" ∷ "UnmapWindow" ∷ "UnmapSubwindows" ∷ "ConfigureWindow" ∷ "CirculateWindow"
    ∷ "GetGeometry" ∷ "QueryTree" ∷ "InternAtom" ∷ "GetAtomName" ∷ "ChangeProperty"
    ∷ "DeleteProperty" ∷ "GetProperty" ∷ "ListProperties" ∷ "SetSelectionOwner"
    ∷ "GetSelectionOwner" ∷ "ConvertSelection" ∷ "SendEvent" ∷ "GrabPointer" ∷ "UngrabPointer"
    ∷ "GrabButton" ∷ "UngrabButton" ∷ "ChangeActivePointerGrab" ∷ "GrabKeyboard" ∷ "UngrabKeyboard"
    ∷ "GrabKey" ∷ "UngrabKey" ∷ "AllowEvents" ∷ "GrabServer" ∷ "UngrabServer" ∷ "QueryPointer"
    ∷ "GetMotionEvents" ∷ "TranslateCoords" ∷ "WarpPointer" ∷ "SetInputFocus" ∷ "GetInputFocus"
    ∷ "QueryKeymap" ∷ "OpenFont" ∷ "CloseFont" ∷ "QueryFont" ∷ "QueryTextExtents" ∷ "ListFonts"
    ∷ "ListFontsWithInfo" ∷ "SetFontPath" ∷ "GetFontPath" ∷ "CreatePixmap" ∷ "FreePixmap"
    ∷ "CreateGC" ∷ "ChangeGC" ∷ "CopyGC" ∷ "SetDashes" ∷ "SetClipRectangles" ∷ "FreeGC"
    ∷ "ClearArea" ∷ "CopyArea" ∷ "CopyPlane" ∷ "PolyPoint" ∷ "PolyLine" ∷ "PolySegment"
    ∷ "PolyRectangle" ∷ "PolyArc" ∷ "FillPoly" ∷ "PolyFillRectangle" ∷ "PolyFillArc" ∷ "PutImage"
    ∷ "GetImage" ∷ "PolyText" ∷ "PolyText" ∷ "ImageText" ∷ "ImageText" ∷ "CreateColormap"
    ∷ "FreeColormap" ∷ "CopyColormapAndFree" ∷ "InstallColormap" ∷ "UninstallColormap"
    ∷ "ListInstalledColormaps" ∷ "AllocColor" ∷ "AllocNamedColor" ∷ "AllocColorCells"
    ∷ "AllocColorPlanes" ∷ "FreeColors" ∷ "StoreColors" ∷ "StoreNamedColor" ∷ "QueryColors"
    ∷ "LookupColor" ∷ "CreateCursor" ∷ "CreateGlyphCursor" ∷ "FreeCursor" ∷ "RecolorCursor"
    ∷ "QueryBestSize" ∷ "QueryExtension" ∷ "ListExtensions" ∷ "ChangeKeyboardMapping"
    ∷ "GetKeyboardMapping" ∷ "ChangeKeyboardControl" ∷ "GetKeyboardControl" ∷ "Bell"
    ∷ "ChangePointerControl" ∷ "GetPointerControl" ∷ "SetScreenSaver" ∷ "GetScreenSaver"
    ∷ "ChangeHosts" ∷ "ListHosts" ∷ "SetAccessControl" ∷ "SetCloseDownMode" ∷ "KillClient"
    ∷ "RotateProperties" ∷ "ForceScreenSaver" ∷ "SetPointerMapping" ∷ "GetPointerMapping"
    ∷ "SetModifierMapping" ∷ "GetModifierMapping" ∷ "major 120" ∷ "major 121" ∷ "major 122"
    ∷ "major 123" ∷ "major 124" ∷ "major 125" ∷ "major 126" ∷ "NoOperation" ∷ []

unfoldable pub label_event : List String
label_event =
    "error" ∷ "reply" ∷ "KeyPress" ∷ "KeyRelease" ∷ "ButtonPress" ∷ "ButtonRelease" ∷ "MotionNotify"
    ∷ "EnterNotify" ∷ "LeaveNotify" ∷ "FocusIn" ∷ "FocusOut" ∷ "KeymapNotify" ∷ "Expose"
    ∷ "GraphicsExpose" ∷ "NoExpose" ∷ "VisibilityNotify" ∷ "CreateNotify" ∷ "DestroyNotify"
    ∷ "UnmapNotify" ∷ "MapNotify" ∷ "MapRequest" ∷ "ReparentNotify" ∷ "ConfigureNotify"
    ∷ "ConfigureRequest" ∷ "GravityNotify" ∷ "ResizeRequest" ∷ "CirculateNotify"
    ∷ "CirculateRequest" ∷ "PropertyNotify" ∷ "SelectionClear" ∷ "SelectionRequest"
    ∷ "SelectionNotify" ∷ "ColormapNotify" ∷ "ClientMessage" ∷ "MappingNotify" ∷ []

-- `type < countof(table)`, then `table[type]`; and a null pointer past the end.
unfoldable pub get_label : ℕ → Option String
get_label type = get_elem? label_event type

unfoldable pub get_error_label : ℕ → Option String
get_error_label type = get_elem? label_error type

unfoldable pub get_request_label : ℕ → Option String
get_request_label type = get_elem? label_request type
