-- ===== src/System/Describe.antt =====
-- flint/src/flint/handler/DeviceDescHandler.cpp: the description of the device.
use Prim.Native.String.{◌++◌ as ◌&◌}
use flingd_cc.Base.{String, Bool, [], ◌∷◌, if◌then◌else◌}
use flingd_cc.Control.Handler.{Response, bare}
use flingd_cc.System.Device.{Device}

-- the page, whose parts are the host, the name, the model and the UUID
unfoldable pub description : (host friendly_name model_name uuid : String) → String
description host friendly_name model_name uuid =
    "<?xml version=\"1.0\"?>\n<root xmlns=\"urn:schemas-upnp-org:device-1-0\">\n  <specVersion>\n    <major>1</major>\n    <minor>0</minor>\n  </specVersion>\n  <URLBase>http://"
    & (host
        & (":9431</URLBase>\n  <Host>"
            & (host
                & ("</Host>\n  <device>\n    <deviceType>urn:dial-multiscreen-org:device:dial:1</deviceType>\n    <friendlyName>"
                    & (friendly_name
                        & ("</friendlyName>\n    <manufacturer>openflint</manufacturer>\n    <modelName>"
                            & (model_name
                                & ("</modelName>\n    <UDN>uuid:"
                                    & (uuid
                                        & "</UDN>\n    <iconList>\n      <icon>\n        <mimetype>image/png</mimetype>\n        <width>98</width>\n        <height>55</height>\n        <depth>32</depth>\n        <url>/setup/icon.png</url>\n      </icon>\n    </iconList>\n    <serviceList>\n      <service>\n        <serviceType>urn:dial-multiscreen-org:service:dial:1</serviceType>\n        <serviceId>urn:dial-multiscreen-org:serviceId:dial</serviceId>\n        <controlURL>/ssdp/notfound</controlURL>\n        <eventSubURL>/ssdp/notfound</eventSubURL>\n        <SCPDURL>/ssdp/notfound</SCPDURL>\n      </service>\n    </serviceList>\n  </device>\n</root>\n")))))))))

-- DeviceDescHandler::DeviceDescHandler
unfoldable pub describe_device :
    {D : Type 0} → (iequals : String → String → Bool) (host uuid : String) → Device D → Response
unfolding description
describe_device iequals host uuid s = if iequals s.device_name "" then bare 200 else record {
  status = 200;
  headers =
      ("Access-Control-Expose-Headers", "Application-URL")
      ∷ ("Application-URL", "http://" & (host & ":9431/apps"))
      ∷ ("Content-Type", "application/xml")
      ∷ [];
  content = description host s.device_name s.model_name uuid;
}
